-- ===== src/Core/Receiver/Life/Bounds.antt =====
-- The bounds of `send_buffer_`: what SendTo copies and sends.
use ssl_ros_bridge.Prelude.{
  ℕ, ◌≡◌, ◌<◌, refl, subst, inl, inr, Bool, Bool-cases, false, Option, none, some, List, [], ◌∷◌,
  ◌++◌, String, arith, leb, drop, length, length-append, length-take, length-drop, All, All-append,
}
use ssl_ros_bridge.Core.Receiver.{
  MulticastReceiver, PendingSend, buffer_size, send_to, complete_send,
}

abbrev pub Fits : PendingSend → Type 0
Fits p = p.length < buffer_size

abbrev pub IsSmall : (String × ℕ) × List ℕ → Type 0
IsSmall (endpoint, bytes) = length bytes < buffer_size

overwritten :
    (data_ buffer : List ℕ)
    → leb buffer_size (length data_) ≡ false
    → length buffer ≡ buffer_size
    → length (data_ ++ drop (length data_) buffer) ≡ buffer_size
overwritten data_ buffer short whole =
    rw (length-append data_ (drop (length data_) buffer), length-drop (length data_) buffer, whole)
      (ground arith)

module _ {S : Type 0} where
  pub record IsBounded (r : MulticastReceiver S) : Type 0 where
    pub whole : length r.send_buffer ≡ buffer_size
    pub pending_fit : All Fits r.pending
    pub datagrams_small : All IsSmall r.datagrams

  -- What does not touch the buffer or what is sent keeps it.
  pub carry :
      (r r' : MulticastReceiver S)
      → r'.send_buffer ≡ r.send_buffer
      → r'.pending ≡ r.pending
      → r'.datagrams ≡ r.datagrams
      → IsBounded r
      → IsBounded r'
  carry r r' b p d ok = record {
    whole = rw b ok.whole;
    pending_fit = rw p ok.pending_fit;
    datagrams_small = rw d ok.datagrams_small;
  }

  pub send_to-IsBounded :
      (is_address : String → Bool) (address : String) (port : ℕ) (data_ : List ℕ)
      (r : MulticastReceiver S)
      → IsBounded r
      → IsBounded (send_to is_address address port data_ r).1
  unfolding send_to
  send_to-IsBounded is_address address port data_ r ok =
      elim (Bool-cases (leb buffer_size (length data_))) [
        | inl long ↦ rw (send_to, long) (carry r _ refl refl refl ok)
        | inr short ↦
            let whole = overwritten data_ r.send_buffer short ok.whole in
            elim (Bool-cases (is_address address)) [
              | inl good ↦
                  rw (send_to, short, good)
                    (record {
                      whole = whole;
                      pending_fit = All-append Fits r.pending _ ok.pending_fit (ground arith, tt);
                      datagrams_small = ok.datagrams_small;
                    })
              | inr bad ↦
                  rw (send_to, short, bad)
                    (record {
                      whole = whole;
                      pending_fit = ok.pending_fit;
                      datagrams_small = ok.datagrams_small;
                    })
            ]
      ]

  pub complete_send-IsBounded :
      (error : Option String) (pending : List PendingSend) (r : MulticastReceiver S)
      → r.pending ≡ pending
      → IsBounded r
      → IsBounded (complete_send error r)
  unfolding complete_send
  complete_send-IsBounded error [] r e ok = rw (complete_send, e) ok
  complete_send-IsBounded (some message) (p ∷ rest) r e ok =
      let fit : All Fits (p ∷ rest) = subst (All Fits) e ok.pending_fit in
      rw (complete_send, e)
        (record { whole = ok.whole; pending_fit = fit.1; datagrams_small = ok.datagrams_small })
  complete_send-IsBounded none (p ∷ rest) r e ok =
      let fit : All Fits (p ∷ rest) = subst (All Fits) e ok.pending_fit in
      rw (complete_send, e)
        (record {
          whole = ok.whole;
          pending_fit = fit.1;
          datagrams_small =
              All-append IsSmall r.datagrams _ ok.datagrams_small
                (omega (arith, length-take p.length r.send_buffer, fit.0), tt);
        })

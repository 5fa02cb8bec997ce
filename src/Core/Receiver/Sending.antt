-- ===== src/Core/Receiver/Sending.antt =====
-- `SendTo` and its handler: what reaches the socket.
use ssl_ros_bridge.Prelude.{
  ℕ, ◌≡◌, ◌≤◌, ◌<◌, refl, ◌⊎◌, inl, inr, Bool, Bool-cases, true, false, List, [], ◌∷◌, ◌++◌, String,
  arith, take, drop, length, leb, Option, none, some, returned, threw, take-append,
}
use ssl_ros_bridge.Core.Receiver.{
  MulticastReceiver, send_too_long, send_failed, buffer_size, warn, send_to, complete_send,
}

at_least : {n size : ℕ} → leb size n ≡ true → size ≤ n
at_least h = ground arith

below : {n size : ℕ} → leb size n ≡ false → n < size
below h = ground arith

module _ {S : Type 0} (is_address : String → Bool) (address : String) (port : ℕ) (data_ : List ℕ)
    (r : MulticastReceiver S) where
  copied :
      leb buffer_size (length data_) ≡ false
      → is_address address ≡ true
      → r.pending ≡ []
      → (send_to is_address address port data_ r).1 ≡ record r {
        send_buffer = data_ ++ drop (length data_) r.send_buffer;
        pending = record { endpoint = (address, port); length = length data_ } ∷ [];
      }
  unfolding send_to
  copied short good idle = rw (send_to, short, good, idle) refl

  sent :
      leb buffer_size (length data_) ≡ false
      → is_address address ≡ true
      → r.pending ≡ []
      → (error : Option String)
      → let r' = (send_to is_address address port data_ r).1 in
        complete_send error r' ≡ elim error [
          | none ↦ record r {
            send_buffer = r'.send_buffer;
            datagrams = r.datagrams ++ (((address, port), data_) ∷ []);
          }
          | some message ↦ warn (send_failed message) (record r { send_buffer = r'.send_buffer })
        ]
  unfolding complete_send
  sent short good idle none =
      rw (copied short good idle, take-append data_ (drop (length data_) r.send_buffer))
        (rw idle refl)
  sent short good idle (some message) = rw (copied short good idle) (rw idle refl)

  -- Data of 4096 bytes or more are refused with a warning, though 4096 would fit. Else they are
  -- copied to the front of the buffer, and `SendTo` throws on a text that is no address, or lets a
  -- send of their length begin. If no other is under way, it sends exactly the data, or warns.
  pub send_to-complete_send :
      (error : Option String)
      → r.pending ≡ []
      → let (call, r') = send_to is_address address port data_ r in
        ((buffer_size ≤ length data_) × (call ≡ returned tt) × (r' ≡ warn send_too_long r))
        ⊎ ((length data_ < buffer_size)
            × (is_address address ≡ false)
            × (call ≡ threw)
            × (r'.pending ≡ [])
            × (take (length data_) r'.send_buffer ≡ data_))
        ⊎ ((length data_ < buffer_size)
            × (is_address address ≡ true)
            × (call ≡ returned tt)
            × (complete_send error r' ≡ elim error [
              | none ↦ record r {
                send_buffer = r'.send_buffer;
                datagrams = r.datagrams ++ (((address, port), data_) ∷ []);
              }
              | some message ↦
                  warn (send_failed message) (record r { send_buffer = r'.send_buffer })
            ]))
  unfolding send_to
  send_to-complete_send error idle = elim (Bool-cases (leb buffer_size (length data_))) [
    | inl long ↦ inl (at_least long, rw (send_to, long) refl, rw (send_to, long) refl)
    | inr short ↦ elim (Bool-cases (is_address address)) [
      | inr bad ↦ inr (
          inl (
            below short,
            bad,
            rw (send_to, short, bad) refl,
            rw (send_to, short, bad) idle,
            rw (send_to, short, bad) (take-append data_ (drop (length data_) r.send_buffer)),
          ))
      | inl good ↦
          inr (inr (below short, good, rw (send_to, short, good) refl, sent short good idle error))
    ]
  ]

-- ===== src/Core/Receiver/Life.antt =====
-- The life of a receiver, from its constructor through what the socket completes and what is sent to
-- its destructor.
pub mod Bounds
use ssl_ros_bridge.Prelude.{
  ℕ, ◌≡◌, ◌<◌, refl, subst, inl, inr, Bool, Bool-cases, true, false, Option, none, some, List, [],
  ◌∷◌, ◌++◌, String, arith, leb, drop, length, length-append, length-take, length-drop, All,
  All-append, returned, if◌then◌else◌,
}
use text.Mathlib.Text.{◌==◌ as str_eq}
use ssl_ros_bridge.Core.Receiver.{
  MulticastReceiver, PendingSend, Socket, Completion, fails, receives_from, buffer_size, unjoined,
  join_on_all, join_on_one, new_receiver, send_to, complete_send, destroy,
  handle_multicast_receive_from, run_receives,
}
use ssl_ros_bridge.Core.Receiver.Delivery.{run_receives_stopped}
use ssl_ros_bridge.Core.Receiver.Joining.{join_on_all_lem, join_answer}
use ssl_ros_bridge.Core.Receiver.Life.Bounds.{
  IsBounded, carry, send_to-IsBounded, complete_send-IsBounded,
}

-- `sent` is the end of the send that is next.
pub data Event : Type 0 where
  completes : Completion → Event
  sends : String → ℕ → List ℕ → Event
  sent : Option String → Event

module _ {S : Type 0} (receive_callback : String → ℕ → List ℕ → S → S)
    (is_address : String → Bool) where
  abbrev pub step : Event → MulticastReceiver S → MulticastReceiver S
  step (completes c) r = run_receives receive_callback (c ∷ []) r
  step (sends address port data_) r = (send_to is_address address port data_ r).1
  step (sent error) r = complete_send error r

  abbrev pub steps : List Event → MulticastReceiver S → MulticastReceiver S
  steps [] r = r
  steps (event ∷ events) r = steps events (step event r)

  handle_multicast_receive_from-IsBounded :
      (c : Completion) (r : MulticastReceiver S)
      → IsBounded r
      → IsBounded (handle_multicast_receive_from receive_callback c r)
  unfolding handle_multicast_receive_from
  handle_multicast_receive_from-IsBounded (fails message) r ok = carry r _ refl refl refl ok
  handle_multicast_receive_from-IsBounded (receives_from address port datagram) r ok =
      carry r _ refl refl refl ok

  run_receives-IsBounded :
      (c : Completion) (r : MulticastReceiver S)
      → IsBounded r
      → IsBounded (run_receives receive_callback (c ∷ []) r)
  unfolding run_receives
  run_receives-IsBounded c r ok =
      elim r.receives
        as (λ b. IsBounded (if b then handle_multicast_receive_from receive_callback c r else r)) [
          | true ↦ handle_multicast_receive_from-IsBounded c r ok
          | false ↦ ok
        ]

  step-IsBounded :
      (event : Event) (r : MulticastReceiver S) → IsBounded r → IsBounded (step event r)
  step-IsBounded (completes c) r ok = run_receives-IsBounded c r ok
  step-IsBounded (sends address port data_) r ok =
      send_to-IsBounded is_address address port data_ r ok
  step-IsBounded (sent error) r ok = complete_send-IsBounded error r.pending r refl ok

  steps-IsBounded :
      (events : List Event) (r : MulticastReceiver S) → IsBounded r → IsBounded (steps events r)
  steps-IsBounded [] r ok = ok
  steps-IsBounded (event ∷ events) r ok = steps-IsBounded events _ (step-IsBounded event r ok)

  join_on_one-IsBounded :
      (socket : Socket) (address : String) (r : MulticastReceiver S)
      → IsBounded r
      → IsBounded (record (join_on_one socket address r) { receives = true })
  unfolding join_on_one
  join_on_one-IsBounded socket address r ok = elim (join_answer (socket.join address)) [
    | inl e ↦ rw (join_on_one, e) (carry r _ refl refl refl ok)
    | inr (in_use, e) ↦ rw (join_on_one, e) (carry r _ refl refl refl ok)
  ]

  new_receiver-IsBounded :
      (socket : Socket) (available : List String) (memory : List ℕ) (interface_address : String)
      (owner : S) (r : MulticastReceiver S)
      → length memory ≡ buffer_size
      → new_receiver socket available memory interface_address owner ≡ returned r
      → IsBounded r
  unfolding new_receiver
  new_receiver-IsBounded socket available memory interface_address owner r whole e =
      let start = unjoined memory owner in
      let ok : IsBounded start = record { whole = whole; pending_fit = tt; datagrams_small = tt } in
      elim (Bool-cases socket.binds) [
        | inr b ↦ absurd (ground arith)
        | inl b ↦ elim (Bool-cases (str_eq interface_address "")) [
          | inl all ↦
              let made : record (join_on_all socket available start) { receives = true } ≡ r =
                ground arith in
              subst IsBounded made
                (rw (join_on_all_lem socket available start) (carry start _ refl refl refl ok))
          | inr one ↦
              let made : record (join_on_one socket interface_address start) { receives = true }
                  ≡ r =
                ground arith in
              subst IsBounded made (join_on_one-IsBounded socket interface_address start ok)
        ]
      ]

  -- A receiver that was constructed, and whose buffer has 4096 bytes, never copies beyond it, through
  -- any sequence of completions and sends: the buffer keeps its size, each send under way and each
  -- datagram sent has fewer bytes than that. And once its destructor is back, no callback runs and
  -- nothing is sent.
  pub life_lem :
      (socket : Socket) (available : List String) (memory : List ℕ) (interface_address : String)
      (owner : S) (r : MulticastReceiver S) (events : List Event)
      → length memory ≡ buffer_size
      → new_receiver socket available memory interface_address owner ≡ returned r
      → let end = steps events r in
        IsBounded end
        × ((destroy end).owner ≡ end.owner)
        × ((cs : List Completion) → run_receives receive_callback cs (destroy end) ≡ destroy end)
        × ((error : Option String) → complete_send error (destroy end) ≡ destroy end)
  unfolding destroy complete_send
  life_lem socket available memory interface_address owner r events whole e = (
    steps-IsBounded events r
        (new_receiver-IsBounded socket available memory interface_address owner r whole e),
    refl,
    λ cs. run_receives_stopped receive_callback cs _ refl,
    λ error. refl,
  )

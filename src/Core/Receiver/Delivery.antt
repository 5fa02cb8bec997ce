-- ===== src/Core/Receiver/Delivery.antt =====
-- The receive handler: which datagrams reach the owner of the receiver.
use ssl_ros_bridge.Prelude.{
  ℕ, ◌≡◌, refl, sym, Bool, true, false, List, [], ◌∷◌, ◌++◌, String, take, Option, none, some,
}
use mathlib.Core.List.{append-nil}
use ssl_ros_bridge.Core.Receiver.{
  MulticastReceiver, Warning, receive_failed, Completion, fails, receives_from, buffer_size,
  handle_multicast_receive_from, run_receives,
}

-- Sender, port and bytes of the datagrams that come before the first error, none of them longer than
-- the buffer.
abbrev pub before_failure : List Completion → List (String × ℕ × List ℕ)
before_failure [] = []
before_failure (fails message ∷ rest) = []
before_failure (receives_from address port datagram ∷ rest) =
    (address, port, take buffer_size datagram) ∷ before_failure rest

abbrev pub first_failure : List Completion → List Warning
first_failure [] = []
first_failure (fails message ∷ rest) = receive_failed message ∷ []
first_failure (receives_from address port datagram ∷ rest) = first_failure rest

abbrev pub no_failure : List Completion → Bool
no_failure [] = true
no_failure (fails message ∷ rest) = false
no_failure (receives_from address port datagram ∷ rest) = no_failure rest

module _ {Packet Message : Type 0} (parse_packet : List ℕ → Option Packet)
    (from_proto : Packet → Message) where
  -- The conversions of the datagrams that can be parsed, in order.
  abbrev pub conversions : List (String × ℕ × List ℕ) → List Message
  conversions [] = []
  conversions ((address, port, bytes) ∷ rest) = elim (parse_packet bytes) [
    | none ↦ conversions rest
    | some packet ↦ from_proto packet ∷ conversions rest
  ]

module _ {S : Type 0} (receive_callback : String → ℕ → List ℕ → S → S) where
  abbrev pub call_each : List (String × ℕ × List ℕ) → S → S
  call_each [] owner = owner
  call_each ((address, port, bytes) ∷ rest) owner =
      call_each rest (receive_callback address port bytes owner)

  pub run_receives_stopped :
      (cs : List Completion) (r : MulticastReceiver S)
      → r.receives ≡ false
      → run_receives receive_callback cs r ≡ r
  unfolding run_receives
  run_receives_stopped [] r h = refl
  run_receives_stopped (c ∷ cs) r h = rw (run_receives, h) refl

  -- The owner's callback runs once for each datagram up to the first error, in order, with the
  -- sender and the bytes that fit the buffer. The first error is warned of, and ends it all: no
  -- receive is under way after it, and later datagrams are lost.
  pub run_receives_lem :
      (cs : List Completion) (r : MulticastReceiver S)
      → r.receives ≡ true
      → run_receives receive_callback cs r ≡ record r {
        owner = call_each (before_failure cs) r.owner;
        warnings = r.warnings ++ first_failure cs;
        receives = no_failure cs;
      }
  unfolding run_receives handle_multicast_receive_from
  run_receives_lem [] r h = rw (append-nil r.warnings, sym h) refl
  run_receives_lem (fails message ∷ cs) r h = rw (run_receives, h) (run_receives_stopped cs _ refl)
  run_receives_lem (receives_from address port datagram ∷ cs) r h =
      rw (run_receives, h) (run_receives_lem cs _ refl)

-- ===== src/VisionBridge.antt =====
-- The node of ssl_vision_bridge_node.cpp: the receiver of core with the callback that publishes. The
-- parser of vision packets and the conversion of what it yields are parameters; the node's state is
-- what it has published, latest last.
pub mod Tests
pub mod Launch
use ssl_ros_bridge.Prelude.{
  ℕ, ◌≡◌, refl, sym, ap, ◌∙◌, Bool, true, false, Option, none, some, List, [], ◌∷◌, ◌++◌, String,
  Call, returned, threw, Option-cases, inl, inr, arith,
}
use mathlib.Core.List.{append-nil, append_assoc}
use ssl_ros_bridge.Core.Receiver.{MulticastReceiver, Socket, Completion, run_receives, new_receiver}
use ssl_ros_bridge.Core.Receiver.Delivery.{before_failure, conversions, call_each, run_receives_lem}
use ssl_ros_bridge.Core.Receiver.Joining.{constructed}

module _ {Packet Message : Type 0} (parse_packet : List ℕ → Option Packet)
    (from_proto : Packet → Message) where
  -- `multicastCallback`, which is bound to the third and the fourth argument.
  unfoldable pub multicast_callback : String → ℕ → List ℕ → List Message → List Message
  multicast_callback address port buffer published = elim (parse_packet buffer) [
    | none ↦ published
    | some packet ↦ published ++ (from_proto packet ∷ [])
  ]

  call_each-conversions :
      (datagrams : List (String × ℕ × List ℕ)) (published : List Message)
      → call_each multicast_callback datagrams published
        ≡ published ++ conversions parse_packet from_proto datagrams
  unfolding multicast_callback
  call_each-conversions [] published = sym (append-nil published)
  call_each-conversions ((address, port, bytes) ∷ rest) published =
      elim (Option-cases (parse_packet bytes)) [
        | inl e ↦ rw (multicast_callback, conversions, e) (call_each-conversions rest published)
        | inr (packet, e) ↦
            rw (multicast_callback, conversions, e)
              (call_each-conversions rest (published ++ (from_proto packet ∷ []))
                ∙ append_assoc published (from_proto packet ∷ [])
                    (conversions parse_packet from_proto rest))
      ]

  -- A node whose receiver was constructed publishes, up to the first error of its socket and not
  -- after it, the conversion of each datagram that can be parsed, once and in order.
  pub vision_bridge_published :
      (socket : Socket) (available : List String) (memory : List ℕ) (interface_address : String)
      (cs : List Completion) {r : MulticastReceiver (List Message)}
      → new_receiver socket available memory interface_address [] ≡ returned r
      → (run_receives multicast_callback cs r).owner
        ≡ conversions parse_packet from_proto (before_failure cs)
  vision_bridge_published socket available memory interface_address cs {r} e =
      let (listens, fresh) = constructed socket available memory interface_address e in
      rw (run_receives_lem multicast_callback cs r listens, fresh)
        (call_each-conversions (before_failure cs) [])

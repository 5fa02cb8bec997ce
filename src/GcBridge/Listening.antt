-- ===== src/GcBridge/Listening.antt =====
-- The bridge's receiver, as the node's constructor sets it up: its callback is
-- `PublishMulticastMessage`, which is bound to the sender's address and the bytes.
use mathlib.Core.List.{append-nil, append_assoc}
use ssl_ros_bridge.Prelude.{
  ℕ, suc, ◌≡◌, refl, sym, ◌∙◌, Bool, Option, List, [], ◌∷◌, ◌++◌, String, returned, inl, inr,
}
use ssl_ros_bridge.Core.Receiver.{MulticastReceiver, Socket, Completion, run_receives, new_receiver}
use ssl_ros_bridge.Core.Receiver.Delivery.{before_failure, conversions, call_each, run_receives_lem}
use ssl_ros_bridge.Core.Receiver.Joining.{constructed}
use ssl_ros_bridge.GcBridge.{GcBridge, new_bridge, ReconnectReply, publish_multicast_message}
use ssl_ros_bridge.GcBridge.Reconnecting.{publish_multicast_message_lem}

-- What a packet meets: whether the service is there, the clock, and what comes of a request.
pub record Surroundings : Type 0 where
  pub service_is_ready : Bool
  pub now : ℕ
  pub reply : ReconnectReply

module _ {Referee Message : Type 0} (parse_referee : List ℕ → Option Referee)
    (from_proto : Referee → Message) (surroundings : ℕ → Surroundings) where
  -- The bridge, and how many packets have come.
  unfoldable pub packet_callback : String → ℕ → List ℕ → GcBridge Message × ℕ → GcBridge Message × ℕ
  packet_callback sender_address port buffer (b, count) =
      let s = surroundings count in
      (
        publish_multicast_message parse_referee from_proto s.service_is_ready s.now s.reply
            sender_address buffer b,
        suc count,
      )

  publishes :
      (address : String) (port : ℕ) (bytes : List ℕ) (b : GcBridge Message) (count : ℕ)
      → (rest : List (String × ℕ × List ℕ))
      → (packet_callback address port bytes (b, count)).0.published
          ++ conversions parse_referee from_proto rest
        ≡ b.published ++ conversions parse_referee from_proto ((address, port, bytes) ∷ rest)
  unfolding packet_callback
  publishes address port bytes b count rest =
      let s = surroundings count in
      elim (publish_multicast_message_lem parse_referee from_proto s.service_is_ready s.now s.reply
        address bytes b) [
          | inl (unparsed, same) ↦ rw (conversions, unparsed, same) refl
          | inr (inl (referee, parsed, asks, same)) ↦
              rw (conversions, parsed, same) (append_assoc b.published _ _)
          | inr (inr (referee, parsed, quiet, same)) ↦
              rw (conversions, parsed, same) (append_assoc b.published _ _)
        ]

  call_each-conversions :
      (datagrams : List (String × ℕ × List ℕ)) (b : GcBridge Message) (count : ℕ)
      → (call_each packet_callback datagrams (b, count)).0.published
        ≡ b.published ++ conversions parse_referee from_proto datagrams
  call_each-conversions [] b count = sym (append-nil b.published)
  call_each-conversions ((address, port, bytes) ∷ rest) b count =
      let (b', count') = packet_callback address port bytes (b, count) in
      call_each-conversions rest b' count' ∙ publishes address port bytes b count rest

  -- A bridge whose receiver was constructed publishes, up to the first error of its socket and not
  -- after it, the conversion of each datagram that can be parsed, once and in order, whatever the
  -- clock and the reconnect service do.
  pub gc_bridge_published :
      (socket : Socket) (available : List String) (memory : List ℕ) (interface_address : String)
      (cs : List Completion) {r : MulticastReceiver (GcBridge Message × ℕ)}
      → new_receiver socket available memory interface_address (new_bridge, 0) ≡ returned r
      → (run_receives packet_callback cs r).owner.0.published
        ≡ conversions parse_referee from_proto (before_failure cs)
  gc_bridge_published socket available memory interface_address cs {r} e =
      let (listens, fresh) = constructed socket available memory interface_address e in
      rw (run_receives_lem packet_callback cs r listens, fresh)
        (call_each-conversions (before_failure cs) new_bridge 0)

-- ===== src/VisionBridge/Launch.antt =====
-- The constructor of ssl_vision_bridge_node.cpp.
use ssl_ros_bridge.Prelude.{
  ℕ, ℤ, pos, ◌≡◌, true, false, Bool-cases, Option, none, List, [], String, Call, returned, threw,
  to_u16, ◌⊎◌, inl, inr,
}
use ssl_ros_bridge.Core.Receiver.{MulticastReceiver, Socket, Completion, run_receives, new_receiver}
use ssl_ros_bridge.Core.Receiver.Delivery.{before_failure, conversions}
use ssl_ros_bridge.Core.Receiver.Joining.{joining}
use ssl_ros_bridge.Core.Launch.{
  Overrides, declare_parameter, Chosen, declare_parameter-Chosen, new_receiver-everywhere,
  new_receiver-unbound,
}
use ssl_ros_bridge.VisionBridge.{multicast_callback, vision_bridge_published}

-- The receiver's socket, for the group's address and the port, which becomes a `uint16_t`.
abbrev pub vision_socket : (String → ℕ → Socket) → Overrides → Socket
vision_socket socket_at overrides =
    socket_at (declare_parameter "224.5.23.2" overrides.address)
      (to_u16 (declare_parameter (pos 10020) overrides.port))

-- The constructor. `socket_at` is what the network makes of an address and a port.
unfoldable pub new_vision_bridge :
    {Message : Type 0}
    → (String → ℕ → Socket)
    → List String
    → List ℕ
    → Overrides
    → Call (MulticastReceiver (List Message))
new_vision_bridge socket_at available memory overrides =
    new_receiver (vision_socket socket_at overrides) available memory
      (declare_parameter "" overrides.net_interface_address) []

-- vision_socket asks the network for the socket of the address and the port.
vision_socket-Chosen :
    (socket_at : String → ℕ → Socket) (overrides : Overrides) (address : String) (port : ℤ)
    → Chosen overrides.address "224.5.23.2" address
    → Chosen overrides.port (pos 10020) port
    → vision_socket socket_at overrides ≡ socket_at address (to_u16 port)
vision_socket-Chosen socket_at overrides address port at_address at_port = rw (
  declare_parameter-Chosen "224.5.23.2" address overrides.address at_address,
  declare_parameter-Chosen (pos 10020) port overrides.port at_port,
)

-- A bridge that is launched without an interface's address uses the socket for the address and the low
-- 16 bits of the port that are given, or else for 224.5.23.2 and 10020. If that socket does not
-- bind, the constructor throws. If it does, the bridge is constructed, has joined the group on each
-- interface that lets it, in order, and publishes, up to the first error of that socket and not after
-- it, the conversion of each datagram that can be parsed, once and in order.
pub vision_bridge_launched :
    {Packet Message : Type 0} (parse : List ℕ → Option Packet) (from_proto : Packet → Message)
    (socket_at : String → ℕ → Socket) (available : List String) (memory : List ℕ)
    (overrides : Overrides) (address : String) (port : ℤ) (cs : List Completion)
    → Chosen overrides.address "224.5.23.2" address
    → Chosen overrides.port (pos 10020) port
    → overrides.net_interface_address ≡ none
    → let socket = socket_at address (to_u16 port) in
      ((socket.binds ≡ false)
        × (new_vision_bridge {Message = Message} socket_at available memory overrides ≡ threw))
      ⊎ ((r : MulticastReceiver (List Message)) × (socket.binds ≡ true)
          × (new_vision_bridge socket_at available memory overrides ≡ returned r)
          × (r.joined ≡ joining socket available)
          × ((run_receives (multicast_callback parse from_proto) cs r).owner
              ≡ conversions parse from_proto (before_failure cs)))
unfolding new_vision_bridge
vision_bridge_launched parse from_proto socket_at available memory overrides address port cs
      at_address at_port everywhere =
    let socket = socket_at address (to_u16 port) in
    let same = vision_socket-Chosen socket_at overrides address port at_address at_port in
    elim (Bool-cases socket.binds) [
      | inr fails ↦
          inl (
            fails,
            rw (same, everywhere) (new_receiver-unbound socket available memory "" [] fails),
          )
      | inl binds ↦
          let (r, made, joined, warned) =
            new_receiver-everywhere socket available memory [] binds in
          inr (
            r,
            binds,
            rw (same, everywhere) made,
            joined,
            vision_bridge_published parse from_proto socket available memory "" cs made,
          )
    ]

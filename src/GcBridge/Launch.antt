-- ===== src/GcBridge/Launch.antt =====
-- The constructor of gc_multicast_bridge_node.cpp, as far as it sets up the receiver.
use ssl_ros_bridge.Prelude.{
  ℕ, ℤ, pos, ◌≡◌, true, false, Bool-cases, Option, none, List, String, Call, returned, threw,
  to_u16, ◌⊎◌, inl, inr,
}
use ssl_ros_bridge.Core.Receiver.{MulticastReceiver, Socket, Completion, run_receives, new_receiver}
use ssl_ros_bridge.Core.Receiver.Delivery.{before_failure, conversions}
use ssl_ros_bridge.Core.Receiver.Joining.{joining}
use ssl_ros_bridge.Core.Launch.{
  Overrides, declare_parameter, Chosen, declare_parameter-Chosen, new_receiver-everywhere,
  new_receiver-unbound,
}
use ssl_ros_bridge.GcBridge.{GcBridge, new_bridge}
use ssl_ros_bridge.GcBridge.Listening.{Surroundings, packet_callback, gc_bridge_published}

-- The receiver's socket, for the group's address and the port, which becomes a `uint16_t`.
abbrev pub gc_socket : (String → ℕ → Socket) → Overrides → Socket
gc_socket socket_at overrides =
    socket_at (declare_parameter "224.5.23.1" overrides.address)
      (to_u16 (declare_parameter (pos 10003) overrides.port))

-- The constructor. `socket_at` is what the network makes of an address and a port.
unfoldable pub new_gc_bridge :
    {Message : Type 0}
    → (String → ℕ → Socket)
    → List String
    → List ℕ
    → Overrides
    → Call (MulticastReceiver (GcBridge Message × ℕ))
new_gc_bridge socket_at available memory overrides =
    new_receiver (gc_socket socket_at overrides) available memory
      (declare_parameter "" overrides.net_interface_address) (new_bridge, 0)

-- gc_socket asks the network for the socket of the address and the port.
gc_socket-Chosen :
    (socket_at : String → ℕ → Socket) (overrides : Overrides) (address : String) (port : ℤ)
    → Chosen overrides.address "224.5.23.1" address
    → Chosen overrides.port (pos 10003) port
    → gc_socket socket_at overrides ≡ socket_at address (to_u16 port)
gc_socket-Chosen socket_at overrides address port at_address at_port = rw (
  declare_parameter-Chosen "224.5.23.1" address overrides.address at_address,
  declare_parameter-Chosen (pos 10003) port overrides.port at_port,
)

-- A bridge that is launched without an interface's address uses the socket for the address and the low
-- 16 bits of the port that are given, or else for 224.5.23.1 and 10003. If that socket does not
-- bind, the constructor throws. If it does, the bridge is constructed, has joined the group on each
-- interface that lets it, in order, and publishes, up to the first error of that socket and not after
-- it, the conversion of each datagram that can be parsed, once and in order, whatever the
-- clock and the reconnect service do.
pub gc_bridge_launched :
    {Packet Message : Type 0} (parse : List ℕ → Option Packet) (from_proto : Packet → Message)
    (surroundings : ℕ → Surroundings) (socket_at : String → ℕ → Socket) (available : List String)
    (memory : List ℕ) (overrides : Overrides) (address : String) (port : ℤ) (cs : List Completion)
    → Chosen overrides.address "224.5.23.1" address
    → Chosen overrides.port (pos 10003) port
    → overrides.net_interface_address ≡ none
    → let socket = socket_at address (to_u16 port) in
      ((socket.binds ≡ false)
        × (new_gc_bridge {Message = Message} socket_at available memory overrides ≡ threw))
      ⊎ ((r : MulticastReceiver (GcBridge Message × ℕ)) × (socket.binds ≡ true)
          × (new_gc_bridge socket_at available memory overrides ≡ returned r)
          × (r.joined ≡ joining socket available)
          × ((run_receives (packet_callback parse from_proto surroundings) cs r).owner.0.published
              ≡ conversions parse from_proto (before_failure cs)))
unfolding new_gc_bridge
gc_bridge_launched parse from_proto surroundings socket_at available memory overrides address port
      cs at_address at_port everywhere =
    let socket = socket_at address (to_u16 port) in
    let same = gc_socket-Chosen socket_at overrides address port at_address at_port in
    elim (Bool-cases socket.binds) [
      | inr fails ↦ inl (
        fails,
        rw (same, everywhere)
            (new_receiver-unbound socket available memory "" (new_bridge, 0) fails),
      )
      | inl binds ↦
          let (r, made, joined, warned) =
            new_receiver-everywhere socket available memory (new_bridge, 0) binds in
          inr (
            r,
            binds,
            rw (same, everywhere) made,
            joined,
            gc_bridge_published parse from_proto surroundings socket available memory "" cs made,
          )
    ]

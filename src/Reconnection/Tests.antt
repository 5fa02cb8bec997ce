-- ===== src/Reconnection/Tests.antt =====
-- A packet that reconnects the client of Examples.antt to its sender.
use text.Mathlib.TextEquality.{eq_iff}
use ssl_ros_bridge.Prelude.{
  ℕ, ◌≡◌, ◌≢◌, refl, ◌⊎◌, ◌↔◌, true, Option, none, some, List, [], ◌∷◌, ◌++◌, String, arith,
}
use ssl_ros_bridge.TeamClient.Wait.{wait_for_reply, wait_loop, turn}
use ssl_ros_bridge.TeamClient.Client.{
  connect, attempt_to_connect_socket, attempt_to_register, register_if_connected, take_greeting,
  take_registration_reply,
}
use ssl_ros_bridge.TeamClient.Node.{handle_reconnect, node_connect, color_of_name}
use ssl_ros_bridge.TeamClient.Examples.{
  parse_ok, node_environment, parse_seven, node, reconnected_node,
}
use ssl_ros_bridge.GcBridge.{
  GcBridge, new_bridge, handle_reply, publish_and_request, request_reconnect,
}
use ssl_ros_bridge.GcBridge.Interleaving.{packet, message_of}
use ssl_ros_bridge.GcBridge.Reconnecting.{Asks}
use ssl_ros_bridge.Reconnection.{reply_of, deliver_packet}
use ssl_ros_bridge.Reconnection.Outcome.{deliver_packet_lem}

abbrev parse_first : List ℕ → Option ℕ
parse_first [] = none
parse_first (byte ∷ bytes) = some byte

abbrev convert : ℕ → ℕ
convert n = n

abbrev sender : String
sender = "10.0.0.2"

named : sender ≢ ""
named h = absurd (ground (arith, (eq_iff sender "").1 h))

abbrev start : GcBridge ℕ
start = new_bridge

abbrev after : GcBridge ℕ
after = record {
  team_client_connected = true;
  last_reconnect_attempt_time = 5_000_000_000;
  published = 7 ∷ [];
  requests = (5_000_000_000, sender) ∷ [];
}

delivery :
    deliver_packet parse_first convert parse_ok parse_seven 12 true 5_000_000_000 true
      node_environment sender
      (7 ∷ [])
      (start, node)
    ≡ some (after, reconnected_node)
unfolding deliver_packet publish_and_request request_reconnect reply_of handle_reply
    handle_reconnect node_connect color_of_name connect attempt_to_connect_socket
    attempt_to_register register_if_connected take_greeting take_registration_reply wait_for_reply
    wait_loop turn
delivery = refl

deliver_packet_lem_example :
    (after.published
      ≡ start.published
        ++ message_of parse_first convert (packet true 5_000_000_000 sender (7 ∷ [])))
    × (((parse_first (7 ∷ []) ≢ none)
          × Asks true 5_000_000_000 start
          × (reconnected_node.gc_ip_address ≡ sender)
          × ((after.team_client_connected ≡ true)
              ↔ ((true ≡ true) × (reconnected_node.team_client.connected ≡ true))))
        ⊎ (((parse_first (7 ∷ []) ≡ none) ⊎ (Asks true 5_000_000_000 start → ⊥))
            × (after.team_client_connected ≡ start.team_client_connected)
            × (reconnected_node ≡ node)))
deliver_packet_lem_example =
    deliver_packet_lem parse_first convert parse_ok parse_seven 12 true 5_000_000_000 true
      node_environment sender (7 ∷ []) start node named refl after reconnected_node delivery

-- ===== src/TeamClient/NodeTests.antt =====
-- Runs of the node against the controller of Examples.antt.
use text.Mathlib.Text.{◌==◌ as str_eq}
use ssl_ros_bridge.Prelude.{
  Call, ℕ, ◌≡◌, refl, ◌⊎◌, ◌↔◌, true, false, some, List, [], ◌∷◌, ◌++◌, pos, if◌then◌else◌,
  returned, threw,
}
use ssl_ros_bridge.TeamClient.Messages.{request, desired_keeper, ping, stop_option}
use ssl_ros_bridge.TeamClient.Wait.{wait_for_reply, wait_loop, turn}
use ssl_ros_bridge.TeamClient.Client.{
  TeamClient, connect, send_request, attempt_to_connect_socket, attempt_to_register,
  register_if_connected, take_greeting, take_registration_reply, take_reply, set_desired_keeper,
  ping_controller,
}
use ssl_ros_bridge.TeamClient.Client.Request.{HasOk, token_after}
use ssl_ros_bridge.TeamClient.Client.WellFormed.{IsWellFormed}
use ssl_ros_bridge.TeamClient.Node.{
  TeamClientNode, Response, ConnectionStatus, ping_callback, handle_reconnect, new_node,
  not_connected, node_connect, serve, color_of_name, handle_set_desired_keeper, after_ping,
}
use ssl_ros_bridge.TeamClient.Node.Requests.{keeper_call, handle_call, handle_call_lem, message_of}
use ssl_ros_bridge.TeamClient.Node.Reconnect.{Tried, handle_reconnect_lem}
use ssl_ros_bridge.TeamClient.Node.Ping.{ping_callback_lem}
use ssl_ros_bridge.TeamClient.Node.Run.{Event, called, reconnect_called, steps, run-IsWellFormed}
use ssl_ros_bridge.TeamClient.Examples.{
  parse_ok, exchange, node_environment, registered, connected, parse_seven, node, reconnected_node,
  waits,
}

abbrev asked : TeamClient ℕ
asked = record connected {
  sent = registered ∷ request (record { msg = some (desired_keeper (pos 3)) }) ∷ [];
}

abbrev accepted : Response
accepted = record { success = true; reason = "" }

abbrev asked_node : TeamClientNode ℕ
asked_node = record node { team_client = asked }

abbrev pinged_node : TeamClientNode ℕ
pinged_node = record node {
  team_client = record connected {
    sent = registered ∷ request (record { msg = some (ping true) }) ∷ [];
  };
  published = record { connected = true; ping_ns = 4 } ∷ [];
}

abbrev end : TeamClientNode ℕ
end = record reconnected_node {
  team_client = record connected {
    sent = registered ∷ request (record { msg = some (desired_keeper (pos 3)) }) ∷ registered ∷ [];
    endpoints = (7, 10008) ∷ (7, 10008) ∷ [];
  };
}

keeper_asked :
    handle_call parse_ok 12 exchange stop_option (keeper_call (pos 3)) node
    ≡ some (returned accepted, asked_node)
unfolding handle_call handle_set_desired_keeper serve set_desired_keeper send_request take_reply
    wait_for_reply wait_loop turn
keeper_asked = refl

handle_call_lem_example :
    ((true ≡ false) × (returned accepted ≡ returned not_connected) × (asked_node ≡ node))
    ⊎ ((true ≡ true) × (true ≡ false) × (returned accepted ≡ threw) × (asked_node ≡ node))
    ⊎ ((response : Response) × (true ≡ true)
        × (returned accepted ≡ returned response)
        × ((response.success ≡ true) ↔ HasOk (parse_ok []))
        × (asked.sent
            ≡ connected.sent
              ++ (request (record { msg = some (message_of stop_option (keeper_call (pos 3))) })
                  ∷ []))
        × (asked_node ≡ record node {
          team_client = record connected {
            sent = asked.sent;
            next_token = token_after (parse_ok []) connected.next_token;
          };
        }))
handle_call_lem_example =
    handle_call_lem parse_ok 12 exchange stop_option (keeper_call (pos 3)) node asked_node waits
      keeper_asked

abbrev returns : Call (Unit {0})
returns = returned tt

pinged : ping_callback parse_ok 12 exchange 5 9 node ≡ some (returned tt, pinged_node)
unfolding ping_callback ping_controller after_ping send_request take_reply wait_for_reply wait_loop
    turn
pinged = refl

ping_callback_lem_example :
    ((true ≡ true) × (true ≡ false) × (returns ≡ threw) × (pinged_node ≡ node))
    ⊎ ((status : ConnectionStatus) × (returns ≡ returned tt)
        × (pinged_node.published ≡ node.published ++ (status ∷ []))
        × (status.connected ≡ pinged_node.team_client.connected)
        × ((status.connected ≡ true) ↔ ((true ≡ true) × HasOk (parse_ok [])))
        × (true ≡ (if true then (if status.connected then true else false) else true)))
ping_callback_lem_example = ping_callback_lem parse_ok 12 exchange 5 9 node pinged_node waits pinged

reconnected :
    handle_reconnect parse_ok parse_seven 12 node_environment "10.0.0.2" node
    ≡ some (returned true, reconnected_node)
unfolding handle_reconnect node_connect color_of_name connect attempt_to_connect_socket
    attempt_to_register register_if_connected take_greeting take_registration_reply wait_for_reply
    wait_loop turn
reconnected = refl

handle_reconnect_lem_example :
    (reconnected_node.gc_ip_address ≡ (if str_eq "10.0.0.2" "" then "10.0.0.1" else "10.0.0.2"))
    × (reconnected_node
        ≡ record node { team_client = reconnected_node.team_client; gc_ip_address = "10.0.0.2" })
    × Tried parse_ok parse_seven 12 node_environment
        (if str_eq "10.0.0.2" "" then node else record node { gc_ip_address = "10.0.0.2" })
        reconnected_node
        (returned true)
handle_reconnect_lem_example =
    handle_reconnect_lem parse_ok parse_seven 12 node_environment "10.0.0.2" node reconnected_node
      reconnected

made :
    new_node parse_ok parse_seven 12 node_environment "10.0.0.1" (pos 10008) "Test Team" "auto"
    ≡ some (returned true, node)
unfolding new_node node_connect color_of_name connect attempt_to_connect_socket attempt_to_register
    register_if_connected take_greeting take_registration_reply wait_for_reply wait_loop turn
made = refl

-- A keeper is asked for, and then the address changes.
abbrev events : List Event
events =
    called exchange stop_option (keeper_call (pos 3))
    ∷ reconnect_called node_environment "10.0.0.2"
    ∷ []

ran : steps parse_ok parse_seven 12 events node ≡ some end
unfolding handle_call handle_set_desired_keeper serve set_desired_keeper send_request take_reply
    handle_reconnect node_connect color_of_name connect attempt_to_connect_socket
    attempt_to_register register_if_connected take_greeting take_registration_reply wait_for_reply
    wait_loop turn
ran = refl

run-IsWellFormed_example : IsWellFormed end.team_client
run-IsWellFormed_example =
    run-IsWellFormed parse_ok parse_seven 12 node_environment "10.0.0.1" (pos 10008) "Test Team"
      "auto" events made ran

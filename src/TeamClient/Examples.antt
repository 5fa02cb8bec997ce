-- ===== src/TeamClient/Examples.antt =====
-- A controller that answers each message with OK, in the second turn of the wait, and the client and
-- the node that have connected to it.
use ssl_ros_bridge.Prelude.{
  ℕ, ◌*◌, ◌≡◌, refl, true, Option, none, some, List, [], ◌∷◌, String, pos, ◌==◌, if◌then◌else◌,
  returned,
}
use ssl_ros_bridge.TeamClient.Messages.{
  ControllerReply, ControllerToTeam, ok, Sent, registration, auto_color, ConnectionParameters,
}
use ssl_ros_bridge.TeamClient.Wait.{Wait, Poll, success, wait_for_reply, wait_loop, turn}
use ssl_ros_bridge.TeamClient.Client.{
  TeamClient, Exchange, ConnectEnvironment, connects, new_client, connect,
  attempt_to_connect_socket, attempt_to_register, register_if_connected, take_greeting,
  take_registration_reply,
}
use ssl_ros_bridge.TeamClient.Node.{TeamClientNode, NodeEnvironment}

abbrev pub accepting : ControllerReply
accepting = record { status_code = some ok; reason = none; next_token = some "t1" }

abbrev pub parse_ok : List ℕ → Option ControllerToTeam
parse_ok _ = some (record { controller_reply = some accepting })

-- A turn each tenth of a second; there is something to read from the second on.
abbrev pub poll : ℕ → Poll
poll j = record {
  time = j * 100_000_000;
  available_error = success;
  bytes_available = if j == 0 then 0 else 5;
  read_error = success;
  received = 1 ∷ [];
}

abbrev pub answer : Wait
answer = record { start = 0; polls = poll }

abbrev pub exchange : Exchange
exchange = record { write_succeeds = true; wait = answer }

abbrev pub environment : ConnectEnvironment
environment = record { answer = connects; greeting = answer; exchange = exchange }

abbrev pub node_environment : NodeEnvironment
node_environment = record { connection = environment; initial_color = auto_color }

abbrev pub parameters : ConnectionParameters ℕ
parameters = record { address = 7; port = 10008; team_name = "Test Team"; team_color = auto_color }

abbrev pub registered : Sent
registered = registration (record { team_name = "Test Team"; team = none })

abbrev pub connected : TeamClient ℕ
connected = record {
  connected = true;
  next_token = "t1";
  socket_open = true;
  endpoints = (7, 10008) ∷ [];
  sent = registered ∷ [];
}

abbrev pub parse_seven : String → Option ℕ
parse_seven _ = some 7

abbrev pub node : TeamClientNode ℕ
node = record {
  team_client = connected;
  gc_ip_address = "10.0.0.1";
  gc_port = pos 10008;
  team_name = "Test Team";
  team_color = "auto";
  published = [];
}

pub waits : wait_for_reply parse_ok 12 answer ≡ some (parse_ok [])
unfolding wait_for_reply wait_loop turn
waits = refl

pub connects_ok :
    connect parse_ok 12 environment parameters new_client ≡ some (returned true, connected)
unfolding connect attempt_to_connect_socket attempt_to_register register_if_connected take_greeting
    take_registration_reply wait_for_reply wait_loop turn
connects_ok = refl

-- The node after its client has connected again, elsewhere.
abbrev pub reconnected_node : TeamClientNode ℕ
reconnected_node = record node {
  gc_ip_address = "10.0.0.2";
  team_client = record connected {
    sent = registered ∷ registered ∷ [];
    endpoints = (7, 10008) ∷ (7, 10008) ∷ [];
  };
}

-- ===== src/TeamClient/Node.antt =====
-- The class `TeamClientNode` of team_client_node.cpp: its parameters, its client, and the handlers
-- that ROS calls one at a time. The ROS graph (services, publisher, timer) is left out but for what
-- is published. A variable that is read before it is set has a value that the environment chooses.
-- An exception that leaves a handler is `threw`.
pub mod Requests
pub mod Reconnect
pub mod Ping
pub mod Run
use text.Mathlib.Text.{◌==◌ as str_eq}
use ssl_ros_bridge.Prelude.{
  ℕ, ℤ, Bool, true, false, not, Option, none, some, List, [], ◌∷◌, ◌++◌, String, ◌==◌,
  if◌then◌else◌, Call, returned, threw, ◌>>=◌, to_u16,
}
use ssl_ros_bridge.TeamClient.Messages.{
  ControllerToTeam, TeamColor, auto_color, blue_color, yellow_color, AdvantageChoiceOption,
  stop_option, continue_option, ConnectionParameters, RequestResult, PingResult,
}
use ssl_ros_bridge.TeamClient.Client.{
  TeamClient, Exchange, ConnectEnvironment, new_client, connect, disconnect, set_desired_keeper,
  request_bot_substitution, set_advantage_choice, ping_controller,
}

-- TeamClientConnectionStatus.msg
pub record ConnectionStatus : Type 0 where
  pub connected : Bool
  pub ping_ns : ℕ

-- The response of the services; that of `reconnect` has no reason.
pub record Response : Type 0 where
  pub success : Bool
  pub reason : String

pub record TeamClientNode (Address : Type 0) : Type 0 where
  pub team_client : TeamClient Address
  pub gc_ip_address : String
  pub gc_port : ℤ
  pub team_name : String
  pub team_color : String
  pub published : List ConnectionStatus

pub record NodeEnvironment : Type 0 where
  pub connection : ConnectEnvironment
  -- the value of `connection_parameters.team_color` before it is set
  pub initial_color : TeamColor

-- The chain of comparisons of `team_color_name`, which has no last `else`.
unfoldable pub color_of_name : TeamColor → String → TeamColor
color_of_name initial name =
    if str_eq name "auto"
    then auto_color
    else if str_eq name "blue"
    then blue_color
    else if str_eq name "yellow"
    then yellow_color
    else initial

-- The `switch` of `HandleSetAdvantageChoice`, which has no default.
unfoldable pub option_of_choice : AdvantageChoiceOption → ℕ → AdvantageChoiceOption
option_of_choice initial choice =
    if choice == 0 then stop_option else if choice == 1 then continue_option else initial

abbrev pub not_connected : Response
not_connected = record {
  success = false;
  reason = "Team client is not connected to the Game Controller.";
}

module _ {Address : Type 0} where
  abbrev pub respond :
      TeamClientNode Address
      → Call RequestResult × TeamClient Address
      → Call Response × TeamClientNode Address
  respond n (threw, c) = (threw, record n { team_client = c })
  respond n (returned r, c) =
      (returned (record { success = r.accepted; reason = r.reason }), record n { team_client = c })

  -- A handler that passes a request on, if the client is connected.
  unfoldable pub serve :
      (TeamClient Address → Option (Call RequestResult × TeamClient Address))
      → TeamClientNode Address
      → Option (Call Response × TeamClientNode Address)
  serve send n =
      if not n.team_client.connected
      then some (returned not_connected, n)
      else do result ← send n.team_client; some (respond n result)

  abbrev pub with_client :
      {A : Type 0}
      → TeamClientNode Address
      → Call A × TeamClient Address
      → Call A × TeamClientNode Address
  with_client n (call, c) = (call, record n { team_client = c })

  -- What `PingCallback` does once `Ping` is back.
  unfoldable pub after_ping :
      TeamClientNode Address
      → Call PingResult × TeamClient Address
      → Call (Unit {0}) × TeamClientNode Address
  after_ping n (threw, c) = (threw, record n { team_client = c })
  after_ping n (returned r, c) =
      let accepted = r.request_result.accepted in
      (
        returned tt,
        record n {
          team_client = if accepted then c else disconnect c;
          published = n.published ++ (record { connected = accepted; ping_ns = r.ping_ns } ∷ []);
        },
      )

module _ {Address : Type 0} (parse_reply : List ℕ → Option ControllerToTeam)
    (parse_address : String → Option Address) (fuel : ℕ) where
  -- `TeamClientNode::Connect`; `address::from_string` throws on a text that is no address.
  unfoldable pub node_connect :
      NodeEnvironment → TeamClientNode Address → Option (Call Bool × TeamClientNode Address)
  node_connect env n =
      if str_eq n.gc_ip_address ""
      then some (returned true, n)
      else elim (parse_address n.gc_ip_address) [
        | none ↦ some (threw, n)
        | some address ↦ do
          result ←
              connect parse_reply fuel env.connection
                (record {
                  address = address;
                  port = to_u16 n.gc_port;
                  team_name = n.team_name;
                  team_color = color_of_name env.initial_color n.team_color;
                })
                n.team_client
          some (with_client n result)
      ]

  -- The constructor, with the parameters as they are declared or overridden.
  unfoldable pub new_node :
      NodeEnvironment → String → ℤ → String → String → Option (Call Bool × TeamClientNode Address)
  new_node env gc_ip_address gc_port team_name team_color = node_connect env (record {
    team_client = new_client;
    gc_ip_address = gc_ip_address;
    gc_port = gc_port;
    team_name = team_name;
    team_color = team_color;
    published = [];
  })

  unfoldable pub handle_reconnect :
      NodeEnvironment
      → String
      → TeamClientNode Address
      → Option (Call Bool × TeamClientNode Address)
  handle_reconnect env server_address n =
      node_connect env
        (if str_eq server_address "" then n else record n { gc_ip_address = server_address })

module _ {Address : Type 0} (parse_reply : List ℕ → Option ControllerToTeam) (fuel : ℕ) where
  unfoldable pub handle_set_desired_keeper :
      Exchange → ℤ → TeamClientNode Address → Option (Call Response × TeamClientNode Address)
  handle_set_desired_keeper env keeper = serve (set_desired_keeper parse_reply fuel env keeper)

  unfoldable pub handle_substitute_bot :
      Exchange → TeamClientNode Address → Option (Call Response × TeamClientNode Address)
  handle_substitute_bot env = serve (request_bot_substitution parse_reply fuel env)

  unfoldable pub handle_set_advantage_choice :
      Exchange
      → AdvantageChoiceOption
      → ℕ
      → TeamClientNode Address
      → Option (Call Response × TeamClientNode Address)
  handle_set_advantage_choice env initial choice =
      serve (set_advantage_choice parse_reply fuel env (option_of_choice initial choice))

  unfoldable pub ping_callback :
      Exchange → ℕ → ℕ → TeamClientNode Address → Option (Call (Unit {0}) × TeamClientNode Address)
  ping_callback env send_time end_time n =
      if n.team_client.connected
      then (do
        result ← ping_controller parse_reply fuel env send_time end_time n.team_client
        some (after_ping n result))
      else some (
        returned tt,
        record n { published = n.published ++ (record { connected = false; ping_ns = 0 } ∷ []) },
      )

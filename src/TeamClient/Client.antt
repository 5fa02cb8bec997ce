-- ===== src/TeamClient/Client.antt =====
-- The class `TeamClient` of team_client.cpp. The text logged is left out, and so is `buffer_`, which
-- each call fills anew. The environment of a call (the answers of the socket and the clock) is an
-- argument; what is written is kept in `sent`, and the endpoints connected to in `endpoints`, latest
-- last. `socket_.close()` is taken not to fail. `boost::asio::write` throws if it fails.
pub mod Connect
pub mod Effect
pub mod Ends
pub mod Request
pub mod WellFormed
use ssl_ros_bridge.Prelude.{
  ℕ, ◌-◌, ℤ, Bool, true, false, not, Option, none, some, List, [], ◌∷◌, ◌++◌, String, if◌then◌else◌,
  Call, returned, threw, ◌>>=◌,
}
use ssl_ros_bridge.TeamClient.Messages.{
  Team, unknown, yellow, blue, TeamRegistration, AdvantageChoice, stop, continue, TeamMessage,
  desired_keeper, advantage_choice, substitute_bot, ping, TeamToController, StatusCode,
  ControllerReply, ControllerToTeam, Sent, registration, request, TeamColor, auto_color, blue_color,
  yellow_color, AdvantageChoiceOption, stop_option, continue_option, ConnectionParameters,
  RequestResult, PingResult, is_ok,
}
use ssl_ros_bridge.TeamClient.Wait.{Wait, wait_for_reply}

pub record TeamClient (Address : Type 0) : Type 0 where
  pub connected : Bool
  pub next_token : String
  pub socket_open : Bool
  pub endpoints : List (Address × ℕ)
  pub sent : List Sent

-- `socket_.connect(endpoint, error_code)`: it succeeds, or fails and leaves the socket open or not.
pub data ConnectAnswer : Type 0 where
  connects : ConnectAnswer
  refuses : Bool → ConnectAnswer

-- A write that succeeds, or not, and the wait for the reply.
pub record Exchange : Type 0 where
  pub write_succeeds : Bool
  pub wait : Wait

pub record ConnectEnvironment : Type 0 where
  pub answer : ConnectAnswer
  pub greeting : Wait
  pub exchange : Exchange

-- `has_status_code() && status_code() != ControllerReply::OK`
abbrev pub has_bad_status : ControllerReply → Bool
has_bad_status reply = elim reply.status_code [ none ↦ false | some s ↦ not (is_ok s) ]

-- `has_status_code() && status_code() == ControllerReply::OK`
abbrev pub has_ok_status : ControllerReply → Bool
has_ok_status reply = elim reply.status_code [ none ↦ false | some s ↦ is_ok s ]

abbrev pub or_keep : Option String → String → String
or_keep none s = s
or_keep (some t) s = t

abbrev pub team_of_color : TeamColor → Option Team
team_of_color blue_color = some blue
team_of_color yellow_color = some yellow
team_of_color auto_color = none

abbrev pub advantage_of_option : AdvantageChoiceOption → AdvantageChoice
advantage_of_option stop_option = stop
advantage_of_option continue_option = continue

-- What the reply to the registration comes to, once it has been waited for.
unfoldable pub take_registration_reply : Option ControllerToTeam → Bool
take_registration_reply none = false
take_registration_reply (some m) = elim m.controller_reply [
  | none ↦ false
  | some reply ↦ not (has_bad_status reply)
]

module _ {Address : Type 0} where
  -- The constructor.
  abbrev pub new_client : TeamClient Address
  new_client = record {
    connected = false;
    next_token = "";
    socket_open = false;
    endpoints = [];
    sent = [];
  }

  abbrev pub close : TeamClient Address → TeamClient Address
  close c = record c { socket_open = false }

  unfoldable pub disconnect : TeamClient Address → TeamClient Address
  disconnect c = record c { connected = false; socket_open = false }

  -- The greeting, once it has been waited for: from `has_controller_reply()` to the end.
  unfoldable pub take_greeting :
      Option ControllerToTeam → TeamClient Address → Bool × TeamClient Address
  take_greeting none c = (false, c)
  take_greeting (some m) c = elim m.controller_reply [
    | none ↦ (false, c)
    | some reply ↦
        if has_bad_status reply
        then (false, close c)
        else (true, record c { next_token = or_keep reply.next_token c.next_token })
  ]

  -- The same for the reply to a request.
  unfoldable pub take_reply :
      Option ControllerToTeam → TeamClient Address → RequestResult × TeamClient Address
  take_reply none c = (record { accepted = false; reason = "Client error." }, c)
  take_reply (some m) c = elim m.controller_reply [
    | none ↦ (record { accepted = false; reason = "Client error." }, c)
    | some reply ↦ (
      record { accepted = has_ok_status reply; reason = or_keep reply.reason "" },
      record c { next_token = or_keep reply.next_token c.next_token },
    )
  ]

  -- `Ping` reads the clock before and after.
  abbrev pub with_time :
      ℕ → Call RequestResult × TeamClient Address → Call PingResult × TeamClient Address
  with_time ns (threw, c) = (threw, c)
  with_time ns (returned r, c) = (returned (record { request_result = r; ping_ns = ns }), c)

  -- From the second test of `Connect` on.
  abbrev pub after_register : Call Bool × TeamClient Address → Call Bool × TeamClient Address
  after_register (threw, c) = (threw, c)
  after_register (returned false, c) = (returned false, close c)
  after_register (returned true, c) = (returned true, record c { connected = true })

module _ {Address : Type 0} (parse_reply : List ℕ → Option ControllerToTeam) (fuel : ℕ) where
  unfoldable pub attempt_to_connect_socket :
      ConnectEnvironment → Address → ℕ → TeamClient Address → Option (Bool × TeamClient Address)
  attempt_to_connect_socket env address port c =
      let closed = if c.socket_open then close c else c in
      let c' = record closed { endpoints = closed.endpoints ++ ((address, port) ∷ []) } in
      elim env.answer [
        | refuses leaves_open ↦ some (false, record c' { socket_open = leaves_open })
        | connects ↦ do
          greeting ← wait_for_reply parse_reply fuel env.greeting
          some (take_greeting greeting (record c' { socket_open = true }))
      ]

  unfoldable pub attempt_to_register :
      Exchange → String → TeamColor → TeamClient Address → Option (Call Bool × TeamClient Address)
  attempt_to_register env team_name color c = if not env.write_succeeds then some (threw, c) else do
    reply ← wait_for_reply parse_reply fuel env.wait
    some (
      returned (take_registration_reply reply),
      record c {
        sent =
            c.sent
            ++ (registration (record { team_name = team_name; team = team_of_color color }) ∷ []);
      },
    )

  -- From the first test of `Connect` on.
  unfoldable pub register_if_connected :
      Exchange
      → ConnectionParameters Address
      → Bool × TeamClient Address
      → Option (Call Bool × TeamClient Address)
  register_if_connected env parameters (false, c) = some (returned false, c)
  register_if_connected env parameters (true, c) = do
    result ← attempt_to_register env parameters.team_name parameters.team_color c
    some (after_register result)

  unfoldable pub connect :
      ConnectEnvironment
      → ConnectionParameters Address
      → TeamClient Address
      → Option (Call Bool × TeamClient Address)
  connect env parameters c = do
    result ←
        attempt_to_connect_socket env parameters.address parameters.port
          (record c { connected = false })
    register_if_connected env.exchange parameters result

  unfoldable pub send_request :
      Exchange
      → TeamToController
      → TeamClient Address
      → Option (Call RequestResult × TeamClient Address)
  send_request env message c = if not env.write_succeeds then some (threw, c) else do
    reply ← wait_for_reply parse_reply fuel env.wait
    let (result, c') = take_reply reply (record c { sent = c.sent ++ (request message ∷ []) })
    some (returned result, c')

  unfoldable pub set_desired_keeper :
      Exchange → ℤ → TeamClient Address → Option (Call RequestResult × TeamClient Address)
  set_desired_keeper env keeper_id =
      send_request env (record { msg = some (desired_keeper keeper_id) })

  unfoldable pub request_bot_substitution :
      Exchange → TeamClient Address → Option (Call RequestResult × TeamClient Address)
  request_bot_substitution env = send_request env (record { msg = some (substitute_bot true) })

  unfoldable pub set_advantage_choice :
      Exchange
      → AdvantageChoiceOption
      → TeamClient Address
      → Option (Call RequestResult × TeamClient Address)
  set_advantage_choice env choice =
      send_request env (record { msg = some (advantage_choice (advantage_of_option choice)) })

  unfoldable pub ping_controller :
      Exchange → ℕ → ℕ → TeamClient Address → Option (Call PingResult × TeamClient Address)
  ping_controller env send_time end_time c = do
    result ← send_request env (record { msg = some (ping true) }) c
    some (with_time (end_time - send_time) result)

-- ===== src/TeamClient/Messages.antt =====
-- The messages of ssl_gc_rcon_team.proto, ssl_gc_rcon.proto and ssl_gc_common.proto that the team
-- client sends and reads, and the types that team_client.hpp declares.
use ssl_ros_bridge.Prelude.{ℕ, ℤ, Bool, true, false, Option, String}

pub data Team : Type 0 where
  unknown yellow blue : Team

pub record TeamRegistration : Type 0 where
  pub team_name : String
  pub team : Option Team

-- `enum AdvantageChoice`
pub data AdvantageChoice : Type 0 where
  stop continue : AdvantageChoice

-- The `oneof msg` of `TeamToController`.
pub data TeamMessage : Type 0 where
  desired_keeper : ℤ → TeamMessage
  advantage_choice : AdvantageChoice → TeamMessage
  substitute_bot : Bool → TeamMessage
  ping : Bool → TeamMessage

-- The client never sets the optional signature.
pub record TeamToController : Type 0 where
  pub msg : Option TeamMessage

pub data StatusCode : Type 0 where
  unknown_status_code ok rejected : StatusCode

pub record ControllerReply : Type 0 where
  pub status_code : Option StatusCode
  pub reason : Option String
  pub next_token : Option String

pub record ControllerToTeam : Type 0 where
  pub controller_reply : Option ControllerReply

-- What the client has written on its sockets, message by message.
pub data Sent : Type 0 where
  registration : TeamRegistration → Sent
  request : TeamToController → Sent

-- `TeamClient::TeamColor`
pub data TeamColor : Type 0 where
  auto_color blue_color yellow_color : TeamColor

-- `TeamClient::AdvantageChoiceOption`
pub data AdvantageChoiceOption : Type 0 where
  stop_option continue_option : AdvantageChoiceOption

pub record ConnectionParameters (Address : Type 0) : Type 0 where
  pub address : Address
  pub port : ℕ
  pub team_name : String
  pub team_color : TeamColor

-- `TeamClient::Result`
pub record RequestResult : Type 0 where
  pub accepted : Bool
  pub reason : String

pub record PingResult : Type 0 where
  pub request_result : RequestResult
  pub ping_ns : ℕ

abbrev pub is_ok : StatusCode → Bool
is_ok ok = true
is_ok _ = false

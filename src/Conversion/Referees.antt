-- ===== src/Conversion/Referees.antt =====
-- The referee message of ssl_gc_referee_message.proto and its conversion.
pub mod Original
pub mod Timestamps
use ssl_ros_bridge.Prelude.{
  ℕ, ℤ, pos, ◌*◌, ◌%◌, ◌^◌, signed64, Bool, String, Option, none, some, List, [], ◌∷◌, map, false,
}
use ssl_ros_bridge.Conversion.Fields.{
  Float32, copy_optional, copy_optional_struct, copy_optional_enum, or_default,
}
use ssl_ros_bridge.Conversion.Arithmetic.{Arithmetic, TimeMsg}
use ssl_ros_bridge.Conversion.Common.{Point32}
use ssl_ros_bridge.Conversion.Enums.{
  Stage, stage_number, Command, command_number, MatchType, match_type_number,
}
use ssl_ros_bridge.Conversion.GameEvents.{GameEvent}
use ssl_ros_bridge.Conversion.GameEvents.Message.{GameEventMsg, game_event_from_proto}

-- `Referee::TeamInfo`
pub record TeamInfo : Type 0 where
  pub name : String
  pub score : ℕ
  pub red_cards : ℕ
  pub yellow_card_times : List ℕ
  pub yellow_cards : ℕ
  pub timeouts : ℕ
  pub timeout_time : ℕ
  pub goalkeeper : ℕ
  pub foul_counter : Option ℕ
  pub ball_placement_failures : Option ℕ
  pub can_place_ball : Option Bool
  pub max_allowed_bots : Option ℕ
  pub bot_substitution_intent : Option Bool
  pub ball_placement_failures_reached : Option Bool
  pub bot_substitution_allowed : Option Bool
  pub bot_substitutions_left : Option ℕ
  pub bot_substitution_time_left : Option ℕ

pub record TeamInfoMsg : Type 0 where
  pub name : String
  pub score : ℕ
  pub red_cards : ℕ
  pub yellow_card_times : List ℕ
  pub yellow_cards : ℕ
  pub timeouts : ℕ
  pub timeout_time : ℕ
  pub goalkeeper : ℕ
  pub foul_counter : List ℕ
  pub ball_placement_failures : List ℕ
  pub can_place_ball : List Bool
  pub max_allowed_bots : List ℕ
  pub bot_substitution_intent : List Bool
  pub ball_placement_failures_reached : List Bool
  pub bot_substitution_allowed : List Bool
  pub bot_substitutions_left : List ℕ
  pub bot_substitution_time_left : List ℕ

unfoldable pub team_info_from_proto : TeamInfo → TeamInfoMsg
team_info_from_proto proto_msg = record {
  name = proto_msg.name;
  score = proto_msg.score;
  red_cards = proto_msg.red_cards;
  yellow_card_times = proto_msg.yellow_card_times;
  yellow_cards = proto_msg.yellow_cards;
  timeouts = proto_msg.timeouts;
  timeout_time = proto_msg.timeout_time;
  goalkeeper = proto_msg.goalkeeper;
  foul_counter = copy_optional proto_msg.foul_counter;
  ball_placement_failures = copy_optional proto_msg.ball_placement_failures;
  can_place_ball = copy_optional proto_msg.can_place_ball;
  max_allowed_bots = copy_optional proto_msg.max_allowed_bots;
  bot_substitution_intent = copy_optional proto_msg.bot_substitution_intent;
  ball_placement_failures_reached = copy_optional proto_msg.ball_placement_failures_reached;
  bot_substitution_allowed = copy_optional proto_msg.bot_substitution_allowed;
  bot_substitutions_left = copy_optional proto_msg.bot_substitutions_left;
  bot_substitution_time_left = copy_optional proto_msg.bot_substitution_time_left;
}

pub record GameEventProposalGroup : Type 0 where
  pub id : Option String
  pub game_events : List GameEvent
  pub accepted : Option Bool

pub record GameEventProposalGroupMsg : Type 0 where
  pub id : List String
  pub game_events : List GameEventMsg
  pub accepted : Bool

unfoldable pub game_event_proposal_group_from_proto :
    GameEventProposalGroup → GameEventProposalGroupMsg
game_event_proposal_group_from_proto proto_msg = record {
  id = copy_optional proto_msg.id;
  game_events = map game_event_from_proto proto_msg.game_events;
  accepted = or_default false proto_msg.accepted;
}

-- `Referee::Point`
pub record RefereePoint : Type 0 where
  pub x : Float32
  pub y : Float32

pub record Referee : Type 0 where
  pub source_identifier : Option String
  pub match_type : Option MatchType
  pub packet_timestamp : ℕ
  pub stage : Stage
  pub stage_time_left : Option ℤ
  pub command : Command
  pub command_counter : ℕ
  pub command_timestamp : ℕ
  pub yellow : TeamInfo
  pub blue : TeamInfo
  pub designated_position : Option RefereePoint
  pub blue_team_on_positive_half : Option Bool
  pub next_command : Option Command
  pub game_events : List GameEvent
  pub game_event_proposals : List GameEventProposalGroup
  pub current_action_time_remaining : Option ℤ
  pub status_message : Option String

pub record RefereeMsg : Type 0 where
  pub source_identifier : List String
  pub match_type : List ℕ
  pub timestamp : TimeMsg
  pub stage : ℕ
  pub stage_time_left : List ℤ
  pub command : ℕ
  pub command_counter : ℕ
  pub command_timestamp : TimeMsg
  pub yellow : TeamInfoMsg
  pub blue : TeamInfoMsg
  pub designated_position : List Point32
  pub blue_team_on_positive_half : List Bool
  pub next_command : List ℕ
  pub game_events : List GameEventMsg
  pub game_event_proposals : List GameEventProposalGroupMsg
  pub current_action_time_remaining : List ℤ
  pub status_message : List String

module _ (arithmetic : Arithmetic) where
  -- The factor of 1000 is applied in `uint64_t`, and the product becomes an `int64_t`.
  unfoldable pub time_of_microseconds : ℕ → TimeMsg
  time_of_microseconds us = arithmetic.time (signed64 (us * 1000 % 2 ^ 64))

  -- The quotient is taken in `double`, and z is zero.
  unfoldable pub designated_position_from_proto : RefereePoint → Point32
  designated_position_from_proto position = record {
    x = arithmetic.divide_by_1e3 position.x;
    y = arithmetic.divide_by_1e3 position.y;
    z = 0;
  }

  unfoldable pub referee_from_proto : Referee → RefereeMsg
  referee_from_proto proto_msg = record {
    source_identifier = copy_optional proto_msg.source_identifier;
    match_type = copy_optional_enum match_type_number proto_msg.match_type;
    timestamp = time_of_microseconds proto_msg.packet_timestamp;
    stage = stage_number proto_msg.stage % 2 ^ 8;
    stage_time_left = copy_optional proto_msg.stage_time_left;
    command = command_number proto_msg.command % 2 ^ 8;
    command_counter = proto_msg.command_counter;
    command_timestamp = time_of_microseconds proto_msg.command_timestamp;
    yellow = team_info_from_proto proto_msg.yellow;
    blue = team_info_from_proto proto_msg.blue;
    designated_position =
        copy_optional_struct designated_position_from_proto proto_msg.designated_position;
    blue_team_on_positive_half = copy_optional proto_msg.blue_team_on_positive_half;
    next_command = copy_optional_enum command_number proto_msg.next_command;
    game_events = map game_event_from_proto proto_msg.game_events;
    game_event_proposals = map game_event_proposal_group_from_proto proto_msg.game_event_proposals;
    current_action_time_remaining = copy_optional proto_msg.current_action_time_remaining;
    status_message = copy_optional proto_msg.status_message;
  }

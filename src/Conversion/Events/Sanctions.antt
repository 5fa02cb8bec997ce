-- ===== src/Conversion/Events/Sanctions.antt =====
-- Game events: cards, substitutions, challenges and ball placement.
pub mod Original
use ssl_ros_bridge.Prelude.{ℕ, ℤ, Bool, String, Option, List, []}
use ssl_ros_bridge.TeamClient.Messages.{Team}
use ssl_ros_bridge.Conversion.Fields.{Float32, copy_optional, copy_optional_struct}
use ssl_ros_bridge.Conversion.Common.{
  Vector2, Point32, TeamMsg, vector2_from_proto, team_from_proto,
}

pub record MultipleCards : Type 0 where
  pub by_team : Team

pub record MultipleCardsMsg : Type 0 where
  pub by_team : TeamMsg

unfoldable pub multiple_cards_from_proto : MultipleCards → MultipleCardsMsg
multiple_cards_from_proto proto_msg = record { by_team = team_from_proto proto_msg.by_team }

pub record MultiplePlacementFailures : Type 0 where
  pub by_team : Team

pub record MultiplePlacementFailuresMsg : Type 0 where
  pub by_team : TeamMsg

unfoldable pub multiple_placement_failures_from_proto :
    MultiplePlacementFailures → MultiplePlacementFailuresMsg
multiple_placement_failures_from_proto proto_msg = record {
  by_team = team_from_proto proto_msg.by_team;
}

pub record UnsportingBehaviorMinor : Type 0 where
  pub by_team : Team
  pub reason : String

pub record UnsportingBehaviorMinorMsg : Type 0 where
  pub by_team : TeamMsg
  pub reason : String

unfoldable pub unsporting_behavior_minor_from_proto :
    UnsportingBehaviorMinor → UnsportingBehaviorMinorMsg
unsporting_behavior_minor_from_proto proto_msg = record {
  by_team = team_from_proto proto_msg.by_team;
  reason = proto_msg.reason;
}

pub record UnsportingBehaviorMajor : Type 0 where
  pub by_team : Team
  pub reason : String

pub record UnsportingBehaviorMajorMsg : Type 0 where
  pub by_team : TeamMsg
  pub reason : String

unfoldable pub unsporting_behavior_major_from_proto :
    UnsportingBehaviorMajor → UnsportingBehaviorMajorMsg
unsporting_behavior_major_from_proto proto_msg = record {
  by_team = team_from_proto proto_msg.by_team;
  reason = proto_msg.reason;
}

pub record BotSubstitution : Type 0 where
  pub by_team : Team

pub record BotSubstitutionMsg : Type 0 where
  pub by_team : TeamMsg

unfoldable pub bot_substitution_from_proto : BotSubstitution → BotSubstitutionMsg
bot_substitution_from_proto proto_msg = record { by_team = team_from_proto proto_msg.by_team }

pub record ExcessiveBotSubstitution : Type 0 where
  pub by_team : Team

pub record ExcessiveBotSubstitutionMsg : Type 0 where
  pub by_team : TeamMsg

unfoldable pub excessive_bot_substitution_from_proto :
    ExcessiveBotSubstitution → ExcessiveBotSubstitutionMsg
excessive_bot_substitution_from_proto proto_msg = record {
  by_team = team_from_proto proto_msg.by_team;
}

pub record ChallengeFlag : Type 0 where
  pub by_team : Team

pub record ChallengeFlagMsg : Type 0 where
  pub by_team : TeamMsg

unfoldable pub challenge_flag_from_proto : ChallengeFlag → ChallengeFlagMsg
challenge_flag_from_proto proto_msg = record { by_team = team_from_proto proto_msg.by_team }

pub record ChallengeFlagHandled : Type 0 where
  pub by_team : Team
  pub accepted : Bool

pub record ChallengeFlagHandledMsg : Type 0 where
  pub by_team : TeamMsg
  pub accepted : Bool

unfoldable pub challenge_flag_handled_from_proto : ChallengeFlagHandled → ChallengeFlagHandledMsg
challenge_flag_handled_from_proto proto_msg = record {
  by_team = team_from_proto proto_msg.by_team;
  accepted = proto_msg.accepted;
}

pub record EmergencyStop : Type 0 where
  pub by_team : Team

pub record EmergencyStopMsg : Type 0 where
  pub by_team : TeamMsg

unfoldable pub emergency_stop_from_proto : EmergencyStop → EmergencyStopMsg
emergency_stop_from_proto proto_msg = record { by_team = team_from_proto proto_msg.by_team }

pub record TooManyRobots : Type 0 where
  pub by_team : Team
  pub num_robots_allowed : Option ℤ
  pub num_robots_on_field : Option ℤ
  pub ball_location : Option Vector2

pub record TooManyRobotsMsg : Type 0 where
  pub by_team : TeamMsg
  pub num_robots_allowed : List ℤ
  pub num_robots_on_field : List ℤ
  pub ball_location : List Point32

unfoldable pub too_many_robots_from_proto : TooManyRobots → TooManyRobotsMsg
too_many_robots_from_proto proto_msg = record {
  by_team = team_from_proto proto_msg.by_team;
  num_robots_allowed = copy_optional proto_msg.num_robots_allowed;
  num_robots_on_field = copy_optional proto_msg.num_robots_on_field;
  ball_location = copy_optional_struct vector2_from_proto proto_msg.ball_location;
}

pub record PlacementFailed : Type 0 where
  pub by_team : Team
  pub remaining_distance : Option Float32
  pub nearest_own_bot_distance : Option Float32

pub record PlacementFailedMsg : Type 0 where
  pub by_team : TeamMsg
  pub remaining_distance : List Float32
  pub nearest_own_bot_distance : List Float32

unfoldable pub placement_failed_from_proto : PlacementFailed → PlacementFailedMsg
placement_failed_from_proto proto_msg = record {
  by_team = team_from_proto proto_msg.by_team;
  remaining_distance = copy_optional proto_msg.remaining_distance;
  nearest_own_bot_distance = [];
}

pub record PlacementSucceeded : Type 0 where
  pub by_team : Team
  pub time_taken : Option Float32
  pub precision : Option Float32
  pub distance : Option Float32

pub record PlacementSucceededMsg : Type 0 where
  pub by_team : TeamMsg
  pub time_taken : List Float32
  pub precision : List Float32
  pub distance : List Float32

unfoldable pub placement_succeeded_from_proto : PlacementSucceeded → PlacementSucceededMsg
placement_succeeded_from_proto proto_msg = record {
  by_team = team_from_proto proto_msg.by_team;
  time_taken = copy_optional proto_msg.time_taken;
  precision = copy_optional proto_msg.precision;
  distance = copy_optional proto_msg.distance;
}

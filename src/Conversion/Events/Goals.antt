-- ===== src/Conversion/Events/Goals.antt =====
-- Game events: the ball leaving the field, shots and goals.
pub mod Original
use ssl_ros_bridge.Prelude.{ℕ, ℤ, Bool, String, Option, List, []}
use ssl_ros_bridge.TeamClient.Messages.{Team}
use ssl_ros_bridge.Conversion.Fields.{Float32, copy_optional, copy_optional_struct}
use ssl_ros_bridge.Conversion.Common.{
  Vector2, Point32, TeamMsg, vector2_from_proto, team_from_proto,
}

pub record BallLeftField : Type 0 where
  pub by_team : Team
  pub by_bot : Option ℕ
  pub location : Option Vector2

pub record BallLeftFieldMsg : Type 0 where
  pub by_team : TeamMsg
  pub by_bot : List ℕ
  pub location : List Point32

unfoldable pub ball_left_field_from_proto : BallLeftField → BallLeftFieldMsg
ball_left_field_from_proto proto_msg = record {
  by_team = team_from_proto proto_msg.by_team;
  by_bot = copy_optional proto_msg.by_bot;
  location = copy_optional_struct vector2_from_proto proto_msg.location;
}

pub record AimlessKick : Type 0 where
  pub by_team : Team
  pub by_bot : Option ℕ
  pub location : Option Vector2
  pub kick_location : Option Vector2

pub record AimlessKickMsg : Type 0 where
  pub by_team : TeamMsg
  pub by_bot : List ℕ
  pub location : List Point32
  pub kick_location : List Point32

unfoldable pub aimless_kick_from_proto : AimlessKick → AimlessKickMsg
aimless_kick_from_proto proto_msg = record {
  by_team = team_from_proto proto_msg.by_team;
  by_bot = copy_optional proto_msg.by_bot;
  location = copy_optional_struct vector2_from_proto proto_msg.location;
  kick_location = copy_optional_struct vector2_from_proto proto_msg.kick_location;
}

pub record Goal : Type 0 where
  pub by_team : Team
  pub kicking_team : Option Team
  pub kicking_bot : Option ℕ
  pub location : Option Vector2
  pub kick_location : Option Vector2
  pub max_ball_height : Option Float32
  pub num_robots_by_team : Option ℕ
  pub last_touch_by_team : Option ℕ
  pub message : Option String

pub record GoalMsg : Type 0 where
  pub by_team : TeamMsg
  pub kicking_team : List TeamMsg
  pub kicking_bot : List ℕ
  pub location : List Point32
  pub kick_location : List Point32
  pub max_ball_height : List Float32
  pub num_robots_by_team : List ℕ
  pub last_touch_by_team : List ℕ
  pub message : List String

unfoldable pub goal_from_proto : Goal → GoalMsg
goal_from_proto proto_msg = record {
  by_team = team_from_proto proto_msg.by_team;
  kicking_team = copy_optional_struct team_from_proto proto_msg.kicking_team;
  kicking_bot = copy_optional proto_msg.kicking_bot;
  location = copy_optional_struct vector2_from_proto proto_msg.location;
  kick_location = copy_optional_struct vector2_from_proto proto_msg.kick_location;
  max_ball_height = copy_optional proto_msg.max_ball_height;
  num_robots_by_team = copy_optional proto_msg.num_robots_by_team;
  last_touch_by_team = copy_optional proto_msg.last_touch_by_team;
  message = copy_optional proto_msg.message;
}

pub record IndirectGoal : Type 0 where
  pub by_team : Team
  pub by_bot : Option ℕ
  pub location : Option Vector2
  pub kick_location : Option Vector2

pub record IndirectGoalMsg : Type 0 where
  pub by_team : TeamMsg
  pub by_bot : List ℕ
  pub location : List Point32
  pub kick_location : List Point32

unfoldable pub indirect_goal_from_proto : IndirectGoal → IndirectGoalMsg
indirect_goal_from_proto proto_msg = record {
  by_team = team_from_proto proto_msg.by_team;
  by_bot = copy_optional proto_msg.by_bot;
  location = copy_optional_struct vector2_from_proto proto_msg.location;
  kick_location = copy_optional_struct vector2_from_proto proto_msg.kick_location;
}

pub record ChippedGoal : Type 0 where
  pub by_team : Team
  pub by_bot : Option ℕ
  pub location : Option Vector2
  pub kick_location : Option Vector2
  pub max_ball_height : Option Float32

pub record ChippedGoalMsg : Type 0 where
  pub by_team : TeamMsg
  pub by_bot : List ℕ
  pub location : List Point32
  pub kick_location : List Point32
  pub max_ball_height : List Float32

unfoldable pub chipped_goal_from_proto : ChippedGoal → ChippedGoalMsg
chipped_goal_from_proto proto_msg = record {
  by_team = team_from_proto proto_msg.by_team;
  by_bot = copy_optional proto_msg.by_bot;
  location = copy_optional_struct vector2_from_proto proto_msg.location;
  kick_location = copy_optional_struct vector2_from_proto proto_msg.kick_location;
  max_ball_height = copy_optional proto_msg.max_ball_height;
}

pub record PenaltyKickFailed : Type 0 where
  pub by_team : Team
  pub location : Option Vector2
  pub reason : Option String

pub record PenaltyKickFailedMsg : Type 0 where
  pub by_team : TeamMsg
  pub location : List Point32
  pub reason : List String

unfoldable pub penalty_kick_failed_from_proto : PenaltyKickFailed → PenaltyKickFailedMsg
penalty_kick_failed_from_proto proto_msg = record {
  by_team = team_from_proto proto_msg.by_team;
  location = copy_optional_struct vector2_from_proto proto_msg.location;
  reason = [];
}

pub record KickTimeout : Type 0 where
  pub by_team : Team
  pub location : Option Vector2
  pub time : Option Float32

pub record KickTimeoutMsg : Type 0 where
  pub by_team : TeamMsg
  pub location : List Point32
  pub time : List Float32

unfoldable pub kick_timeout_from_proto : KickTimeout → KickTimeoutMsg
kick_timeout_from_proto proto_msg = record {
  by_team = team_from_proto proto_msg.by_team;
  location = copy_optional_struct vector2_from_proto proto_msg.location;
  time = copy_optional proto_msg.time;
}

pub record NoProgressInGame : Type 0 where
  pub location : Option Vector2
  pub time : Option Float32

pub record NoProgressInGameMsg : Type 0 where
  pub location : List Point32
  pub time : List Float32

unfoldable pub no_progress_in_game_from_proto : NoProgressInGame → NoProgressInGameMsg
no_progress_in_game_from_proto proto_msg = record {
  location = copy_optional_struct vector2_from_proto proto_msg.location;
  time = copy_optional proto_msg.time;
}

pub record Prepared : Type 0 where
  pub time_taken : Option Float32

pub record PreparedMsg : Type 0 where
  pub time_taken : List Float32

unfoldable pub prepared_from_proto : Prepared → PreparedMsg
prepared_from_proto proto_msg = record { time_taken = copy_optional proto_msg.time_taken }

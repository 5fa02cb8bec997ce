-- ===== src/Conversion/Events/Areas.antt =====
-- Game events: where robots must not be or touch the ball.
pub mod Original
use ssl_ros_bridge.Prelude.{ℕ, ℤ, Bool, String, Option, List, []}
use ssl_ros_bridge.TeamClient.Messages.{Team}
use ssl_ros_bridge.Conversion.Fields.{Float32, copy_optional, copy_optional_struct}
use ssl_ros_bridge.Conversion.Common.{
  Vector2, Point32, TeamMsg, vector2_from_proto, team_from_proto,
}

pub record AttackerDoubleTouchedBall : Type 0 where
  pub by_team : Team
  pub by_bot : Option ℕ
  pub location : Option Vector2

pub record AttackerDoubleTouchedBallMsg : Type 0 where
  pub by_team : TeamMsg
  pub by_bot : List ℕ
  pub location : List Point32

unfoldable pub attacker_double_touched_ball_from_proto :
    AttackerDoubleTouchedBall → AttackerDoubleTouchedBallMsg
attacker_double_touched_ball_from_proto proto_msg = record {
  by_team = team_from_proto proto_msg.by_team;
  by_bot = copy_optional proto_msg.by_bot;
  location = copy_optional_struct vector2_from_proto proto_msg.location;
}

pub record AttackerTooCloseToDefenseArea : Type 0 where
  pub by_team : Team
  pub by_bot : Option ℕ
  pub location : Option Vector2
  pub distance : Option Float32
  pub ball_location : Option Vector2

pub record AttackerTooCloseToDefenseAreaMsg : Type 0 where
  pub by_team : TeamMsg
  pub by_bot : List ℕ
  pub location : List Point32
  pub distance : List Float32
  pub ball_location : List Point32

unfoldable pub attacker_too_close_to_defense_area_from_proto :
    AttackerTooCloseToDefenseArea → AttackerTooCloseToDefenseAreaMsg
attacker_too_close_to_defense_area_from_proto proto_msg = record {
  by_team = team_from_proto proto_msg.by_team;
  by_bot = copy_optional proto_msg.by_bot;
  location = copy_optional_struct vector2_from_proto proto_msg.location;
  distance = copy_optional proto_msg.distance;
  ball_location = copy_optional_struct vector2_from_proto proto_msg.ball_location;
}

pub record AttackerTouchedBallInDefenseArea : Type 0 where
  pub by_team : Team
  pub by_bot : Option ℕ
  pub location : Option Vector2
  pub distance : Option Float32

pub record AttackerTouchedBallInDefenseAreaMsg : Type 0 where
  pub by_team : TeamMsg
  pub by_bot : List ℕ
  pub location : List Point32
  pub distance : List Float32

unfoldable pub attacker_touched_ball_in_defense_area_from_proto :
    AttackerTouchedBallInDefenseArea → AttackerTouchedBallInDefenseAreaMsg
attacker_touched_ball_in_defense_area_from_proto proto_msg = record {
  by_team = team_from_proto proto_msg.by_team;
  by_bot = copy_optional proto_msg.by_bot;
  location = copy_optional_struct vector2_from_proto proto_msg.location;
  distance = copy_optional proto_msg.distance;
}

pub record AttackerTouchedOpponentInDefenseArea : Type 0 where
  pub by_team : Team
  pub by_bot : Option ℕ
  pub victim : Option ℕ
  pub location : Option Vector2

pub record AttackerTouchedOpponentInDefenseAreaMsg : Type 0 where
  pub by_team : TeamMsg
  pub by_bot : List ℕ
  pub victim : List ℕ
  pub location : List Point32

unfoldable pub attacker_touched_opponent_in_defense_area_from_proto :
    AttackerTouchedOpponentInDefenseArea → AttackerTouchedOpponentInDefenseAreaMsg
attacker_touched_opponent_in_defense_area_from_proto proto_msg = record {
  by_team = team_from_proto proto_msg.by_team;
  by_bot = copy_optional proto_msg.by_bot;
  victim = copy_optional proto_msg.victim;
  location = copy_optional_struct vector2_from_proto proto_msg.location;
}

pub record DefenderInDefenseArea : Type 0 where
  pub by_team : Team
  pub by_bot : Option ℕ
  pub location : Option Vector2
  pub distance : Option Float32

pub record DefenderInDefenseAreaMsg : Type 0 where
  pub by_team : TeamMsg
  pub by_bot : List ℕ
  pub location : List Point32
  pub distance : List Float32

unfoldable pub defender_in_defense_area_from_proto :
    DefenderInDefenseArea → DefenderInDefenseAreaMsg
defender_in_defense_area_from_proto proto_msg = record {
  by_team = team_from_proto proto_msg.by_team;
  by_bot = copy_optional proto_msg.by_bot;
  location = copy_optional_struct vector2_from_proto proto_msg.location;
  distance = copy_optional proto_msg.distance;
}

pub record DefenderInDefenseAreaPartially : Type 0 where
  pub by_team : Team
  pub by_bot : Option ℕ
  pub location : Option Vector2
  pub distance : Option Float32
  pub ball_location : Option Vector2

pub record DefenderInDefenseAreaPartiallyMsg : Type 0 where
  pub by_team : TeamMsg
  pub by_bot : List ℕ
  pub location : List Point32
  pub distance : List Float32
  pub ball_location : List Point32

unfoldable pub defender_in_defense_area_partially_from_proto :
    DefenderInDefenseAreaPartially → DefenderInDefenseAreaPartiallyMsg
defender_in_defense_area_partially_from_proto proto_msg = record {
  by_team = team_from_proto proto_msg.by_team;
  by_bot = copy_optional proto_msg.by_bot;
  location = copy_optional_struct vector2_from_proto proto_msg.location;
  distance = copy_optional proto_msg.distance;
  ball_location = copy_optional_struct vector2_from_proto proto_msg.ball_location;
}

pub record DefenderTooCloseToKickPoint : Type 0 where
  pub by_team : Team
  pub by_bot : Option ℕ
  pub location : Option Vector2
  pub distance : Option Float32

pub record DefenderTooCloseToKickPointMsg : Type 0 where
  pub by_team : TeamMsg
  pub by_bot : List ℕ
  pub location : List Point32
  pub distance : List Float32

unfoldable pub defender_too_close_to_kick_point_from_proto :
    DefenderTooCloseToKickPoint → DefenderTooCloseToKickPointMsg
defender_too_close_to_kick_point_from_proto proto_msg = record {
  by_team = team_from_proto proto_msg.by_team;
  by_bot = copy_optional proto_msg.by_bot;
  location = copy_optional_struct vector2_from_proto proto_msg.location;
  distance = copy_optional proto_msg.distance;
}

pub record BoundaryCrossing : Type 0 where
  pub by_team : Team
  pub location : Option Vector2

pub record BoundaryCrossingMsg : Type 0 where
  pub by_team : TeamMsg
  pub location : List Point32

unfoldable pub boundary_crossing_from_proto : BoundaryCrossing → BoundaryCrossingMsg
boundary_crossing_from_proto proto_msg = record {
  by_team = team_from_proto proto_msg.by_team;
  location = copy_optional_struct vector2_from_proto proto_msg.location;
}

pub record KeeperHeldBall : Type 0 where
  pub by_team : Team
  pub location : Option Vector2
  pub duration : Option Float32

pub record KeeperHeldBallMsg : Type 0 where
  pub by_team : TeamMsg
  pub location : List Point32
  pub duration : List Float32

unfoldable pub keeper_held_ball_from_proto : KeeperHeldBall → KeeperHeldBallMsg
keeper_held_ball_from_proto proto_msg = record {
  by_team = team_from_proto proto_msg.by_team;
  location = copy_optional_struct vector2_from_proto proto_msg.location;
  duration = copy_optional proto_msg.duration;
}

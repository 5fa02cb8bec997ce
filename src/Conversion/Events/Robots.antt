-- ===== src/Conversion/Events/Robots.antt =====
-- Game events: what robots do to the ball and to each other.
pub mod Original
use ssl_ros_bridge.Prelude.{ℕ, ℤ, Bool, String, Option, List, []}
use ssl_ros_bridge.TeamClient.Messages.{Team}
use ssl_ros_bridge.Conversion.Fields.{Float32, copy_optional, copy_optional_struct}
use ssl_ros_bridge.Conversion.Common.{
  Vector2, Point32, TeamMsg, vector2_from_proto, team_from_proto,
}

pub record BotCrashDrawn : Type 0 where
  pub bot_yellow : Option ℕ
  pub bot_blue : Option ℕ
  pub location : Option Vector2
  pub crash_speed : Option Float32
  pub speed_diff : Option Float32
  pub crash_angle : Option Float32

pub record BotCrashDrawnMsg : Type 0 where
  pub bot_yellow : List ℕ
  pub bot_blue : List ℕ
  pub location : List Point32
  pub crash_speed : List Float32
  pub speed_diff : List Float32
  pub crash_angle : List Float32

unfoldable pub bot_crash_drawn_from_proto : BotCrashDrawn → BotCrashDrawnMsg
bot_crash_drawn_from_proto proto_msg = record {
  bot_yellow = copy_optional proto_msg.bot_yellow;
  bot_blue = copy_optional proto_msg.bot_blue;
  location = copy_optional_struct vector2_from_proto proto_msg.location;
  crash_speed = copy_optional proto_msg.crash_speed;
  speed_diff = copy_optional proto_msg.speed_diff;
  crash_angle = copy_optional proto_msg.crash_angle;
}

pub record BotCrashUnique : Type 0 where
  pub by_team : Team
  pub violator : Option ℕ
  pub victim : Option ℕ
  pub location : Option Vector2
  pub crash_speed : Option Float32
  pub speed_diff : Option Float32
  pub crash_angle : Option Float32

pub record BotCrashUniqueMsg : Type 0 where
  pub by_team : TeamMsg
  pub violator : List ℕ
  pub victim : List ℕ
  pub location : List Point32
  pub crash_speed : List Float32
  pub speed_diff : List Float32
  pub crash_angle : List Float32

unfoldable pub bot_crash_unique_from_proto : BotCrashUnique → BotCrashUniqueMsg
bot_crash_unique_from_proto proto_msg = record {
  by_team = team_from_proto proto_msg.by_team;
  violator = copy_optional proto_msg.violator;
  victim = copy_optional proto_msg.victim;
  location = copy_optional_struct vector2_from_proto proto_msg.location;
  crash_speed = copy_optional proto_msg.crash_speed;
  speed_diff = copy_optional proto_msg.speed_diff;
  crash_angle = copy_optional proto_msg.crash_angle;
}

pub record BotPushedBot : Type 0 where
  pub by_team : Team
  pub violator : Option ℕ
  pub victim : Option ℕ
  pub location : Option Vector2
  pub pushed_distance : Option Float32

pub record BotPushedBotMsg : Type 0 where
  pub by_team : TeamMsg
  pub violator : List ℕ
  pub victim : List ℕ
  pub location : List Point32
  pub pushed_distance : List Float32

unfoldable pub bot_pushed_bot_from_proto : BotPushedBot → BotPushedBotMsg
bot_pushed_bot_from_proto proto_msg = record {
  by_team = team_from_proto proto_msg.by_team;
  violator = copy_optional proto_msg.violator;
  victim = copy_optional proto_msg.victim;
  location = copy_optional_struct vector2_from_proto proto_msg.location;
  pushed_distance = copy_optional proto_msg.pushed_distance;
}

pub record BotTippedOver : Type 0 where
  pub by_team : Team
  pub by_bot : Option ℕ
  pub location : Option Vector2
  pub ball_location : Option Vector2

pub record BotTippedOverMsg : Type 0 where
  pub by_team : TeamMsg
  pub by_bot : List ℕ
  pub location : List Point32
  pub ball_location : List Point32

unfoldable pub bot_tipped_over_from_proto : BotTippedOver → BotTippedOverMsg
bot_tipped_over_from_proto proto_msg = record {
  by_team = team_from_proto proto_msg.by_team;
  by_bot = copy_optional proto_msg.by_bot;
  location = copy_optional_struct vector2_from_proto proto_msg.location;
  ball_location = copy_optional_struct vector2_from_proto proto_msg.ball_location;
}

pub record BotDroppedParts : Type 0 where
  pub by_team : Team
  pub by_bot : Option ℕ
  pub location : Option Vector2
  pub ball_location : Option Vector2

pub record BotDroppedPartsMsg : Type 0 where
  pub by_team : TeamMsg
  pub by_bot : List ℕ
  pub location : List Point32
  pub ball_location : List Point32

unfoldable pub bot_dropped_parts_from_proto : BotDroppedParts → BotDroppedPartsMsg
bot_dropped_parts_from_proto proto_msg = record {
  by_team = team_from_proto proto_msg.by_team;
  by_bot = copy_optional proto_msg.by_bot;
  location = copy_optional_struct vector2_from_proto proto_msg.location;
  ball_location = copy_optional_struct vector2_from_proto proto_msg.ball_location;
}

pub record BotHeldBallDeliberately : Type 0 where
  pub by_team : Team
  pub by_bot : Option ℕ
  pub location : Option Vector2
  pub duration : Option Float32

pub record BotHeldBallDeliberatelyMsg : Type 0 where
  pub by_team : TeamMsg
  pub by_bot : List ℕ
  pub location : List Point32
  pub duration : List Float32

unfoldable pub bot_held_ball_deliberately_from_proto :
    BotHeldBallDeliberately → BotHeldBallDeliberatelyMsg
bot_held_ball_deliberately_from_proto proto_msg = record {
  by_team = team_from_proto proto_msg.by_team;
  by_bot = copy_optional proto_msg.by_bot;
  location = copy_optional_struct vector2_from_proto proto_msg.location;
  duration = copy_optional proto_msg.duration;
}

pub record BotDribbledBallTooFar : Type 0 where
  pub by_team : Team
  pub by_bot : Option ℕ
  pub start : Option Vector2
  pub end : Option Vector2

pub record BotDribbledBallTooFarMsg : Type 0 where
  pub by_team : TeamMsg
  pub by_bot : List ℕ
  pub start : List Point32
  pub end : List Point32

unfoldable pub bot_dribbled_ball_too_far_from_proto :
    BotDribbledBallTooFar → BotDribbledBallTooFarMsg
bot_dribbled_ball_too_far_from_proto proto_msg = record {
  by_team = team_from_proto proto_msg.by_team;
  by_bot = copy_optional proto_msg.by_bot;
  start = copy_optional_struct vector2_from_proto proto_msg.start;
  end = copy_optional_struct vector2_from_proto proto_msg.end;
}

pub record BotKickedBallTooFast : Type 0 where
  pub by_team : Team
  pub by_bot : Option ℕ
  pub location : Option Vector2
  pub initial_ball_speed : Option Float32
  pub chipped : Option Bool

pub record BotKickedBallTooFastMsg : Type 0 where
  pub by_team : TeamMsg
  pub by_bot : List ℕ
  pub location : List Point32
  pub initial_ball_speed : List Float32
  pub chipped : List Bool

unfoldable pub bot_kicked_ball_too_fast_from_proto : BotKickedBallTooFast → BotKickedBallTooFastMsg
bot_kicked_ball_too_fast_from_proto proto_msg = record {
  by_team = team_from_proto proto_msg.by_team;
  by_bot = copy_optional proto_msg.by_bot;
  location = copy_optional_struct vector2_from_proto proto_msg.location;
  initial_ball_speed = copy_optional proto_msg.initial_ball_speed;
  chipped = copy_optional proto_msg.chipped;
}

pub record BotTooFastInStop : Type 0 where
  pub by_team : Team
  pub by_bot : Option ℕ
  pub location : Option Vector2
  pub speed : Option Float32

pub record BotTooFastInStopMsg : Type 0 where
  pub by_team : TeamMsg
  pub by_bot : List ℕ
  pub location : List Point32
  pub speed : List Float32

unfoldable pub bot_too_fast_in_stop_from_proto : BotTooFastInStop → BotTooFastInStopMsg
bot_too_fast_in_stop_from_proto proto_msg = record {
  by_team = team_from_proto proto_msg.by_team;
  by_bot = copy_optional proto_msg.by_bot;
  location = copy_optional_struct vector2_from_proto proto_msg.location;
  speed = copy_optional proto_msg.speed;
}

pub record BotInterferedPlacement : Type 0 where
  pub by_team : Team
  pub by_bot : Option ℕ
  pub location : Option Vector2

pub record BotInterferedPlacementMsg : Type 0 where
  pub by_team : TeamMsg
  pub by_bot : List ℕ
  pub location : List Point32

unfoldable pub bot_interfered_placement_from_proto :
    BotInterferedPlacement → BotInterferedPlacementMsg
bot_interfered_placement_from_proto proto_msg = record {
  by_team = team_from_proto proto_msg.by_team;
  by_bot = copy_optional proto_msg.by_bot;
  location = copy_optional_struct vector2_from_proto proto_msg.location;
}

-- ===== src/Conversion/Events/Robots/Original.antt =====
-- The events of Robots.antt read back.
use ssl_ros_bridge.Prelude.{◌≡◌, map}
use ssl_ros_bridge.Conversion.Fields.{first}
use ssl_ros_bridge.Conversion.Common.Original.{original_vector2, original_team, originals}
use ssl_ros_bridge.Conversion.Events.Robots.{
  BotCrashDrawn, BotCrashDrawnMsg, bot_crash_drawn_from_proto, BotCrashUnique, BotCrashUniqueMsg,
  bot_crash_unique_from_proto, BotPushedBot, BotPushedBotMsg, bot_pushed_bot_from_proto,
  BotTippedOver, BotTippedOverMsg, bot_tipped_over_from_proto, BotDroppedParts, BotDroppedPartsMsg,
  bot_dropped_parts_from_proto, BotHeldBallDeliberately, BotHeldBallDeliberatelyMsg,
  bot_held_ball_deliberately_from_proto, BotDribbledBallTooFar, BotDribbledBallTooFarMsg,
  bot_dribbled_ball_too_far_from_proto, BotKickedBallTooFast, BotKickedBallTooFastMsg,
  bot_kicked_ball_too_fast_from_proto, BotTooFastInStop, BotTooFastInStopMsg,
  bot_too_fast_in_stop_from_proto, BotInterferedPlacement, BotInterferedPlacementMsg,
  bot_interfered_placement_from_proto,
}

unfoldable pub original_bot_crash_drawn : BotCrashDrawnMsg → BotCrashDrawn
original_bot_crash_drawn ros_msg = record {
  bot_yellow = first ros_msg.bot_yellow;
  bot_blue = first ros_msg.bot_blue;
  location = first (map original_vector2 ros_msg.location);
  crash_speed = first ros_msg.crash_speed;
  speed_diff = first ros_msg.speed_diff;
  crash_angle = first ros_msg.crash_angle;
}

pub original_bot_crash_drawn-bot_crash_drawn_from_proto :
    (m : BotCrashDrawn) → original_bot_crash_drawn (bot_crash_drawn_from_proto m) ≡ m
unfolding original_bot_crash_drawn bot_crash_drawn_from_proto
original_bot_crash_drawn-bot_crash_drawn_from_proto m = simp originals

unfoldable pub original_bot_crash_unique : BotCrashUniqueMsg → BotCrashUnique
original_bot_crash_unique ros_msg = record {
  by_team = original_team ros_msg.by_team;
  violator = first ros_msg.violator;
  victim = first ros_msg.victim;
  location = first (map original_vector2 ros_msg.location);
  crash_speed = first ros_msg.crash_speed;
  speed_diff = first ros_msg.speed_diff;
  crash_angle = first ros_msg.crash_angle;
}

pub original_bot_crash_unique-bot_crash_unique_from_proto :
    (m : BotCrashUnique) → original_bot_crash_unique (bot_crash_unique_from_proto m) ≡ m
unfolding original_bot_crash_unique bot_crash_unique_from_proto
original_bot_crash_unique-bot_crash_unique_from_proto m = simp originals

unfoldable pub original_bot_pushed_bot : BotPushedBotMsg → BotPushedBot
original_bot_pushed_bot ros_msg = record {
  by_team = original_team ros_msg.by_team;
  violator = first ros_msg.violator;
  victim = first ros_msg.victim;
  location = first (map original_vector2 ros_msg.location);
  pushed_distance = first ros_msg.pushed_distance;
}

pub original_bot_pushed_bot-bot_pushed_bot_from_proto :
    (m : BotPushedBot) → original_bot_pushed_bot (bot_pushed_bot_from_proto m) ≡ m
unfolding original_bot_pushed_bot bot_pushed_bot_from_proto
original_bot_pushed_bot-bot_pushed_bot_from_proto m = simp originals

unfoldable pub original_bot_tipped_over : BotTippedOverMsg → BotTippedOver
original_bot_tipped_over ros_msg = record {
  by_team = original_team ros_msg.by_team;
  by_bot = first ros_msg.by_bot;
  location = first (map original_vector2 ros_msg.location);
  ball_location = first (map original_vector2 ros_msg.ball_location);
}

pub original_bot_tipped_over-bot_tipped_over_from_proto :
    (m : BotTippedOver) → original_bot_tipped_over (bot_tipped_over_from_proto m) ≡ m
unfolding original_bot_tipped_over bot_tipped_over_from_proto
original_bot_tipped_over-bot_tipped_over_from_proto m = simp originals

unfoldable pub original_bot_dropped_parts : BotDroppedPartsMsg → BotDroppedParts
original_bot_dropped_parts ros_msg = record {
  by_team = original_team ros_msg.by_team;
  by_bot = first ros_msg.by_bot;
  location = first (map original_vector2 ros_msg.location);
  ball_location = first (map original_vector2 ros_msg.ball_location);
}

pub original_bot_dropped_parts-bot_dropped_parts_from_proto :
    (m : BotDroppedParts) → original_bot_dropped_parts (bot_dropped_parts_from_proto m) ≡ m
unfolding original_bot_dropped_parts bot_dropped_parts_from_proto
original_bot_dropped_parts-bot_dropped_parts_from_proto m = simp originals

unfoldable pub original_bot_held_ball_deliberately :
    BotHeldBallDeliberatelyMsg → BotHeldBallDeliberately
original_bot_held_ball_deliberately ros_msg = record {
  by_team = original_team ros_msg.by_team;
  by_bot = first ros_msg.by_bot;
  location = first (map original_vector2 ros_msg.location);
  duration = first ros_msg.duration;
}

pub original_bot_held_ball_deliberately-bot_held_ball_deliberately_from_proto :
    (m : BotHeldBallDeliberately)
    → original_bot_held_ball_deliberately (bot_held_ball_deliberately_from_proto m) ≡ m
unfolding original_bot_held_ball_deliberately bot_held_ball_deliberately_from_proto
original_bot_held_ball_deliberately-bot_held_ball_deliberately_from_proto m = simp originals

unfoldable pub original_bot_dribbled_ball_too_far : BotDribbledBallTooFarMsg → BotDribbledBallTooFar
original_bot_dribbled_ball_too_far ros_msg = record {
  by_team = original_team ros_msg.by_team;
  by_bot = first ros_msg.by_bot;
  start = first (map original_vector2 ros_msg.start);
  end = first (map original_vector2 ros_msg.end);
}

pub original_bot_dribbled_ball_too_far-bot_dribbled_ball_too_far_from_proto :
    (m : BotDribbledBallTooFar)
    → original_bot_dribbled_ball_too_far (bot_dribbled_ball_too_far_from_proto m) ≡ m
unfolding original_bot_dribbled_ball_too_far bot_dribbled_ball_too_far_from_proto
original_bot_dribbled_ball_too_far-bot_dribbled_ball_too_far_from_proto m = simp originals

unfoldable pub original_bot_kicked_ball_too_fast : BotKickedBallTooFastMsg → BotKickedBallTooFast
original_bot_kicked_ball_too_fast ros_msg = record {
  by_team = original_team ros_msg.by_team;
  by_bot = first ros_msg.by_bot;
  location = first (map original_vector2 ros_msg.location);
  initial_ball_speed = first ros_msg.initial_ball_speed;
  chipped = first ros_msg.chipped;
}

pub original_bot_kicked_ball_too_fast-bot_kicked_ball_too_fast_from_proto :
    (m : BotKickedBallTooFast)
    → original_bot_kicked_ball_too_fast (bot_kicked_ball_too_fast_from_proto m) ≡ m
unfolding original_bot_kicked_ball_too_fast bot_kicked_ball_too_fast_from_proto
original_bot_kicked_ball_too_fast-bot_kicked_ball_too_fast_from_proto m = simp originals

unfoldable pub original_bot_too_fast_in_stop : BotTooFastInStopMsg → BotTooFastInStop
original_bot_too_fast_in_stop ros_msg = record {
  by_team = original_team ros_msg.by_team;
  by_bot = first ros_msg.by_bot;
  location = first (map original_vector2 ros_msg.location);
  speed = first ros_msg.speed;
}

pub original_bot_too_fast_in_stop-bot_too_fast_in_stop_from_proto :
    (m : BotTooFastInStop) → original_bot_too_fast_in_stop (bot_too_fast_in_stop_from_proto m) ≡ m
unfolding original_bot_too_fast_in_stop bot_too_fast_in_stop_from_proto
original_bot_too_fast_in_stop-bot_too_fast_in_stop_from_proto m = simp originals

unfoldable pub original_bot_interfered_placement :
    BotInterferedPlacementMsg → BotInterferedPlacement
original_bot_interfered_placement ros_msg = record {
  by_team = original_team ros_msg.by_team;
  by_bot = first ros_msg.by_bot;
  location = first (map original_vector2 ros_msg.location);
}

pub original_bot_interfered_placement-bot_interfered_placement_from_proto :
    (m : BotInterferedPlacement)
    → original_bot_interfered_placement (bot_interfered_placement_from_proto m) ≡ m
unfolding original_bot_interfered_placement bot_interfered_placement_from_proto
original_bot_interfered_placement-bot_interfered_placement_from_proto m = simp originals

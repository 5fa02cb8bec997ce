-- ===== src/Conversion/GameEvents/Cases.antt =====
-- The cases of the `oneof`, as their has_ and get functions tell them.
use ssl_ros_bridge.Prelude.{Option, none, some}
use ssl_ros_bridge.Conversion.Events.Goals.{
  BallLeftField, AimlessKick, Goal, PenaltyKickFailed, NoProgressInGame,
}
use ssl_ros_bridge.Conversion.Events.Areas.{
  AttackerDoubleTouchedBall, AttackerTooCloseToDefenseArea, AttackerTouchedBallInDefenseArea,
  DefenderInDefenseArea, DefenderTooCloseToKickPoint, BoundaryCrossing, KeeperHeldBall,
}
use ssl_ros_bridge.Conversion.Events.Robots.{
  BotCrashDrawn, BotCrashUnique, BotPushedBot, BotTippedOver, BotDroppedParts,
  BotHeldBallDeliberately, BotDribbledBallTooFar, BotKickedBallTooFast, BotTooFastInStop,
  BotInterferedPlacement,
}
use ssl_ros_bridge.Conversion.Events.Sanctions.{
  MultipleCards, UnsportingBehaviorMinor, UnsportingBehaviorMajor, BotSubstitution,
  ExcessiveBotSubstitution, ChallengeFlag, ChallengeFlagHandled, EmergencyStop, TooManyRobots,
  PlacementFailed, PlacementSucceeded,
}
use ssl_ros_bridge.Conversion.GameEvents.{
  Event, MultipleFouls, ball_left_field_touch_line, ball_left_field_goal_line, aimless_kick,
  attacker_too_close_to_defense_area, defender_in_defense_area, boundary_crossing, keeper_held_ball,
  bot_dribbled_ball_too_far, bot_pushed_bot, bot_held_ball_deliberately, bot_tipped_over,
  bot_dropped_parts, attacker_touched_ball_in_defense_area, bot_kicked_ball_too_fast,
  bot_crash_unique, bot_crash_drawn, defender_too_close_to_kick_point, bot_too_fast_in_stop,
  bot_interfered_placement, possible_goal, goal, invalid_goal, attacker_double_touched_ball,
  placement_succeeded, penalty_kick_failed, no_progress_in_game, placement_failed, multiple_cards,
  multiple_fouls, bot_substitution, excessive_bot_substitution, too_many_robots, challenge_flag,
  challenge_flag_handled, emergency_stop, unsporting_behavior_minor, unsporting_behavior_major,
}

unfoldable pub ball_left_field_touch_line_case : Event → Option BallLeftField
ball_left_field_touch_line_case (ball_left_field_touch_line m) = some m
ball_left_field_touch_line_case _ = none

unfoldable pub ball_left_field_goal_line_case : Event → Option BallLeftField
ball_left_field_goal_line_case (ball_left_field_goal_line m) = some m
ball_left_field_goal_line_case _ = none

unfoldable pub aimless_kick_case : Event → Option AimlessKick
aimless_kick_case (aimless_kick m) = some m
aimless_kick_case _ = none

unfoldable pub attacker_too_close_to_defense_area_case :
    Event → Option AttackerTooCloseToDefenseArea
attacker_too_close_to_defense_area_case (attacker_too_close_to_defense_area m) = some m
attacker_too_close_to_defense_area_case _ = none

unfoldable pub defender_in_defense_area_case : Event → Option DefenderInDefenseArea
defender_in_defense_area_case (defender_in_defense_area m) = some m
defender_in_defense_area_case _ = none

unfoldable pub boundary_crossing_case : Event → Option BoundaryCrossing
boundary_crossing_case (boundary_crossing m) = some m
boundary_crossing_case _ = none

unfoldable pub keeper_held_ball_case : Event → Option KeeperHeldBall
keeper_held_ball_case (keeper_held_ball m) = some m
keeper_held_ball_case _ = none

unfoldable pub bot_dribbled_ball_too_far_case : Event → Option BotDribbledBallTooFar
bot_dribbled_ball_too_far_case (bot_dribbled_ball_too_far m) = some m
bot_dribbled_ball_too_far_case _ = none

unfoldable pub bot_pushed_bot_case : Event → Option BotPushedBot
bot_pushed_bot_case (bot_pushed_bot m) = some m
bot_pushed_bot_case _ = none

unfoldable pub bot_held_ball_deliberately_case : Event → Option BotHeldBallDeliberately
bot_held_ball_deliberately_case (bot_held_ball_deliberately m) = some m
bot_held_ball_deliberately_case _ = none

unfoldable pub bot_tipped_over_case : Event → Option BotTippedOver
bot_tipped_over_case (bot_tipped_over m) = some m
bot_tipped_over_case _ = none

unfoldable pub bot_dropped_parts_case : Event → Option BotDroppedParts
bot_dropped_parts_case (bot_dropped_parts m) = some m
bot_dropped_parts_case _ = none

unfoldable pub attacker_touched_ball_in_defense_area_case :
    Event → Option AttackerTouchedBallInDefenseArea
attacker_touched_ball_in_defense_area_case (attacker_touched_ball_in_defense_area m) = some m
attacker_touched_ball_in_defense_area_case _ = none

unfoldable pub bot_kicked_ball_too_fast_case : Event → Option BotKickedBallTooFast
bot_kicked_ball_too_fast_case (bot_kicked_ball_too_fast m) = some m
bot_kicked_ball_too_fast_case _ = none

unfoldable pub bot_crash_unique_case : Event → Option BotCrashUnique
bot_crash_unique_case (bot_crash_unique m) = some m
bot_crash_unique_case _ = none

unfoldable pub bot_crash_drawn_case : Event → Option BotCrashDrawn
bot_crash_drawn_case (bot_crash_drawn m) = some m
bot_crash_drawn_case _ = none

unfoldable pub defender_too_close_to_kick_point_case : Event → Option DefenderTooCloseToKickPoint
defender_too_close_to_kick_point_case (defender_too_close_to_kick_point m) = some m
defender_too_close_to_kick_point_case _ = none

unfoldable pub bot_too_fast_in_stop_case : Event → Option BotTooFastInStop
bot_too_fast_in_stop_case (bot_too_fast_in_stop m) = some m
bot_too_fast_in_stop_case _ = none

unfoldable pub bot_interfered_placement_case : Event → Option BotInterferedPlacement
bot_interfered_placement_case (bot_interfered_placement m) = some m
bot_interfered_placement_case _ = none

unfoldable pub possible_goal_case : Event → Option Goal
possible_goal_case (possible_goal m) = some m
possible_goal_case _ = none

unfoldable pub goal_case : Event → Option Goal
goal_case (goal m) = some m
goal_case _ = none

unfoldable pub invalid_goal_case : Event → Option Goal
invalid_goal_case (invalid_goal m) = some m
invalid_goal_case _ = none

unfoldable pub attacker_double_touched_ball_case : Event → Option AttackerDoubleTouchedBall
attacker_double_touched_ball_case (attacker_double_touched_ball m) = some m
attacker_double_touched_ball_case _ = none

unfoldable pub placement_succeeded_case : Event → Option PlacementSucceeded
placement_succeeded_case (placement_succeeded m) = some m
placement_succeeded_case _ = none

unfoldable pub penalty_kick_failed_case : Event → Option PenaltyKickFailed
penalty_kick_failed_case (penalty_kick_failed m) = some m
penalty_kick_failed_case _ = none

unfoldable pub no_progress_in_game_case : Event → Option NoProgressInGame
no_progress_in_game_case (no_progress_in_game m) = some m
no_progress_in_game_case _ = none

unfoldable pub placement_failed_case : Event → Option PlacementFailed
placement_failed_case (placement_failed m) = some m
placement_failed_case _ = none

unfoldable pub multiple_cards_case : Event → Option MultipleCards
multiple_cards_case (multiple_cards m) = some m
multiple_cards_case _ = none

unfoldable pub multiple_fouls_case : Event → Option MultipleFouls
multiple_fouls_case (multiple_fouls m) = some m
multiple_fouls_case _ = none

unfoldable pub bot_substitution_case : Event → Option BotSubstitution
bot_substitution_case (bot_substitution m) = some m
bot_substitution_case _ = none

unfoldable pub excessive_bot_substitution_case : Event → Option ExcessiveBotSubstitution
excessive_bot_substitution_case (excessive_bot_substitution m) = some m
excessive_bot_substitution_case _ = none

unfoldable pub too_many_robots_case : Event → Option TooManyRobots
too_many_robots_case (too_many_robots m) = some m
too_many_robots_case _ = none

unfoldable pub challenge_flag_case : Event → Option ChallengeFlag
challenge_flag_case (challenge_flag m) = some m
challenge_flag_case _ = none

unfoldable pub challenge_flag_handled_case : Event → Option ChallengeFlagHandled
challenge_flag_handled_case (challenge_flag_handled m) = some m
challenge_flag_handled_case _ = none

unfoldable pub emergency_stop_case : Event → Option EmergencyStop
emergency_stop_case (emergency_stop m) = some m
emergency_stop_case _ = none

unfoldable pub unsporting_behavior_minor_case : Event → Option UnsportingBehaviorMinor
unsporting_behavior_minor_case (unsporting_behavior_minor m) = some m
unsporting_behavior_minor_case _ = none

unfoldable pub unsporting_behavior_major_case : Event → Option UnsportingBehaviorMajor
unsporting_behavior_major_case (unsporting_behavior_major m) = some m
unsporting_behavior_major_case _ = none

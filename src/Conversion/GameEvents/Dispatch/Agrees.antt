-- ===== src/Conversion/GameEvents/Dispatch/Agrees.antt =====
-- game_event_from_proto is the choice by case.
use ssl_ros_bridge.Prelude.{◌≡◌, refl}
use ssl_ros_bridge.Conversion.Fields.{copy_optional_struct}
use ssl_ros_bridge.Conversion.GameEvents.{
  GameEventHeader, game_event, Event, no_event, ball_left_field_touch_line,
  ball_left_field_goal_line, aimless_kick, attacker_too_close_to_defense_area,
  defender_in_defense_area, boundary_crossing, keeper_held_ball, bot_dribbled_ball_too_far,
  bot_pushed_bot, bot_held_ball_deliberately, bot_tipped_over, bot_dropped_parts,
  attacker_touched_ball_in_defense_area, bot_kicked_ball_too_fast, bot_crash_unique,
  bot_crash_drawn, defender_too_close_to_kick_point, bot_too_fast_in_stop, bot_interfered_placement,
  possible_goal, goal, invalid_goal, attacker_double_touched_ball, placement_succeeded,
  penalty_kick_failed, no_progress_in_game, placement_failed, multiple_cards, multiple_fouls,
  bot_substitution, excessive_bot_substitution, too_many_robots, challenge_flag,
  challenge_flag_handled, emergency_stop, unsporting_behavior_minor, unsporting_behavior_major,
  prepared, indirect_goal, chipped_goal, kick_timeout, attacker_touched_opponent_in_defense_area,
  attacker_touched_opponent_in_defense_area_skipped, bot_crash_unique_skipped,
  bot_pushed_bot_skipped, defender_in_defense_area_partially, multiple_placement_failures,
}
use ssl_ros_bridge.Conversion.GameEvents.Cases.{
  ball_left_field_touch_line_case, ball_left_field_goal_line_case, aimless_kick_case,
  attacker_too_close_to_defense_area_case, defender_in_defense_area_case, boundary_crossing_case,
  keeper_held_ball_case, bot_dribbled_ball_too_far_case, bot_pushed_bot_case,
  bot_held_ball_deliberately_case, bot_tipped_over_case, bot_dropped_parts_case,
  attacker_touched_ball_in_defense_area_case, bot_kicked_ball_too_fast_case, bot_crash_unique_case,
  bot_crash_drawn_case, defender_too_close_to_kick_point_case, bot_too_fast_in_stop_case,
  bot_interfered_placement_case, possible_goal_case, goal_case, invalid_goal_case,
  attacker_double_touched_ball_case, placement_succeeded_case, penalty_kick_failed_case,
  no_progress_in_game_case, placement_failed_case, multiple_cards_case, multiple_fouls_case,
  bot_substitution_case, excessive_bot_substitution_case, too_many_robots_case, challenge_flag_case,
  challenge_flag_handled_case, emergency_stop_case, unsporting_behavior_minor_case,
  unsporting_behavior_major_case,
}
use ssl_ros_bridge.Conversion.GameEvents.Message.{game_event_from_proto}
use ssl_ros_bridge.Conversion.GameEvents.Dispatch.{dispatch}

-- The conversion, which asks for each case in turn, is the choice by the event's case: it fills the
-- array of that case with the one converted message and leaves all others empty; and for no case and
-- for ten deprecated ones it leaves every array empty.
pub game_event_from_proto-dispatch :
    (h : GameEventHeader) (e : Event) → game_event_from_proto (game_event h e) ≡ dispatch h e
unfolding game_event_from_proto dispatch copy_optional_struct ball_left_field_touch_line_case
    ball_left_field_goal_line_case aimless_kick_case attacker_too_close_to_defense_area_case
    defender_in_defense_area_case boundary_crossing_case keeper_held_ball_case
    bot_dribbled_ball_too_far_case bot_pushed_bot_case bot_held_ball_deliberately_case
    bot_tipped_over_case bot_dropped_parts_case attacker_touched_ball_in_defense_area_case
    bot_kicked_ball_too_fast_case bot_crash_unique_case bot_crash_drawn_case
    defender_too_close_to_kick_point_case bot_too_fast_in_stop_case bot_interfered_placement_case
    possible_goal_case goal_case invalid_goal_case attacker_double_touched_ball_case
    placement_succeeded_case penalty_kick_failed_case no_progress_in_game_case placement_failed_case
    multiple_cards_case multiple_fouls_case bot_substitution_case excessive_bot_substitution_case
    too_many_robots_case challenge_flag_case challenge_flag_handled_case emergency_stop_case
    unsporting_behavior_minor_case unsporting_behavior_major_case
game_event_from_proto-dispatch h (ball_left_field_touch_line m) = refl
game_event_from_proto-dispatch h (ball_left_field_goal_line m) = refl
game_event_from_proto-dispatch h (aimless_kick m) = refl
game_event_from_proto-dispatch h (attacker_too_close_to_defense_area m) = refl
game_event_from_proto-dispatch h (defender_in_defense_area m) = refl
game_event_from_proto-dispatch h (boundary_crossing m) = refl
game_event_from_proto-dispatch h (keeper_held_ball m) = refl
game_event_from_proto-dispatch h (bot_dribbled_ball_too_far m) = refl
game_event_from_proto-dispatch h (bot_pushed_bot m) = refl
game_event_from_proto-dispatch h (bot_held_ball_deliberately m) = refl
game_event_from_proto-dispatch h (bot_tipped_over m) = refl
game_event_from_proto-dispatch h (bot_dropped_parts m) = refl
game_event_from_proto-dispatch h (attacker_touched_ball_in_defense_area m) = refl
game_event_from_proto-dispatch h (bot_kicked_ball_too_fast m) = refl
game_event_from_proto-dispatch h (bot_crash_unique m) = refl
game_event_from_proto-dispatch h (bot_crash_drawn m) = refl
game_event_from_proto-dispatch h (defender_too_close_to_kick_point m) = refl
game_event_from_proto-dispatch h (bot_too_fast_in_stop m) = refl
game_event_from_proto-dispatch h (bot_interfered_placement m) = refl
game_event_from_proto-dispatch h (possible_goal m) = refl
game_event_from_proto-dispatch h (goal m) = refl
game_event_from_proto-dispatch h (invalid_goal m) = refl
game_event_from_proto-dispatch h (attacker_double_touched_ball m) = refl
game_event_from_proto-dispatch h (placement_succeeded m) = refl
game_event_from_proto-dispatch h (penalty_kick_failed m) = refl
game_event_from_proto-dispatch h (no_progress_in_game m) = refl
game_event_from_proto-dispatch h (placement_failed m) = refl
game_event_from_proto-dispatch h (multiple_cards m) = refl
game_event_from_proto-dispatch h (multiple_fouls m) = refl
game_event_from_proto-dispatch h (bot_substitution m) = refl
game_event_from_proto-dispatch h (excessive_bot_substitution m) = refl
game_event_from_proto-dispatch h (too_many_robots m) = refl
game_event_from_proto-dispatch h (challenge_flag m) = refl
game_event_from_proto-dispatch h (challenge_flag_handled m) = refl
game_event_from_proto-dispatch h (emergency_stop m) = refl
game_event_from_proto-dispatch h (unsporting_behavior_minor m) = refl
game_event_from_proto-dispatch h (unsporting_behavior_major m) = refl
game_event_from_proto-dispatch h (prepared m) = refl
game_event_from_proto-dispatch h (indirect_goal m) = refl
game_event_from_proto-dispatch h (chipped_goal m) = refl
game_event_from_proto-dispatch h (kick_timeout m) = refl
game_event_from_proto-dispatch h (attacker_touched_opponent_in_defense_area m) = refl
game_event_from_proto-dispatch h (attacker_touched_opponent_in_defense_area_skipped m) = refl
game_event_from_proto-dispatch h (bot_crash_unique_skipped m) = refl
game_event_from_proto-dispatch h (bot_pushed_bot_skipped m) = refl
game_event_from_proto-dispatch h (defender_in_defense_area_partially m) = refl
game_event_from_proto-dispatch h (multiple_placement_failures m) = refl
game_event_from_proto-dispatch h no_event = refl

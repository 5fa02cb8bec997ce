-- ===== src/Conversion/GameEvents/Dispatch.antt =====
-- The conversion of a game event as a choice by its case.
pub mod Agrees
use ssl_ros_bridge.Prelude.{ℕ, ◌%◌, ◌^◌, String, Option, List, [], ◌∷◌, ◌≡◌, refl}
use ssl_ros_bridge.Conversion.Fields.{copy_optional_struct, or_default}
use ssl_ros_bridge.Conversion.Enums.{unknown_game_event_type, game_event_type_number}
use ssl_ros_bridge.Conversion.Events.Goals.{
  ball_left_field_from_proto, aimless_kick_from_proto, goal_from_proto,
  penalty_kick_failed_from_proto, no_progress_in_game_from_proto,
}
use ssl_ros_bridge.Conversion.Events.Areas.{
  attacker_double_touched_ball_from_proto, attacker_too_close_to_defense_area_from_proto,
  attacker_touched_ball_in_defense_area_from_proto, defender_in_defense_area_from_proto,
  defender_too_close_to_kick_point_from_proto, boundary_crossing_from_proto,
  keeper_held_ball_from_proto,
}
use ssl_ros_bridge.Conversion.Events.Robots.{
  bot_crash_drawn_from_proto, bot_crash_unique_from_proto, bot_pushed_bot_from_proto,
  bot_tipped_over_from_proto, bot_dropped_parts_from_proto, bot_held_ball_deliberately_from_proto,
  bot_dribbled_ball_too_far_from_proto, bot_kicked_ball_too_fast_from_proto,
  bot_too_fast_in_stop_from_proto, bot_interfered_placement_from_proto,
}
use ssl_ros_bridge.Conversion.Events.Sanctions.{
  multiple_cards_from_proto, unsporting_behavior_minor_from_proto,
  unsporting_behavior_major_from_proto, bot_substitution_from_proto,
  excessive_bot_substitution_from_proto, challenge_flag_from_proto,
  challenge_flag_handled_from_proto, emergency_stop_from_proto, too_many_robots_from_proto,
  placement_failed_from_proto, placement_succeeded_from_proto,
}
use ssl_ros_bridge.Conversion.GameEvents.{
  GameEventHeader, GameEvent, game_event, Event, no_event, ball_left_field_touch_line,
  ball_left_field_goal_line, aimless_kick, attacker_too_close_to_defense_area,
  defender_in_defense_area, boundary_crossing, keeper_held_ball, bot_dribbled_ball_too_far,
  bot_pushed_bot, bot_held_ball_deliberately, bot_tipped_over, bot_dropped_parts,
  attacker_touched_ball_in_defense_area, bot_kicked_ball_too_fast, bot_crash_unique,
  bot_crash_drawn, defender_too_close_to_kick_point, bot_too_fast_in_stop, bot_interfered_placement,
  possible_goal, goal, invalid_goal, attacker_double_touched_ball, placement_succeeded,
  penalty_kick_failed, no_progress_in_game, placement_failed, multiple_cards, multiple_fouls,
  bot_substitution, excessive_bot_substitution, too_many_robots, challenge_flag,
  challenge_flag_handled, emergency_stop, unsporting_behavior_minor, unsporting_behavior_major,
  prepared, indirect_goal, chipped_goal, kick_timeout, attacker_touched_opponent_in_defense_area,
  attacker_touched_opponent_in_defense_area_skipped, bot_crash_unique_skipped,
  bot_pushed_bot_skipped, defender_in_defense_area_partially, multiple_placement_failures,
}
use ssl_ros_bridge.Conversion.GameEvents.Cases.{
  ball_left_field_touch_line_case, ball_left_field_goal_line_case, aimless_kick_case,
  attacker_too_close_to_defense_area_case, defender_in_defense_area_case, boundary_crossing_case,
  keeper_held_ball_case, bot_dribbled_ball_too_far_case, bot_pushed_bot_case,
  bot_held_ball_deliberately_case, bot_tipped_over_case, bot_dropped_parts_case,
  attacker_touched_ball_in_defense_area_case, bot_kicked_ball_too_fast_case, bot_crash_unique_case,
  bot_crash_drawn_case, defender_too_close_to_kick_point_case, bot_too_fast_in_stop_case,
  bot_interfered_placement_case, possible_goal_case, goal_case, invalid_goal_case,
  attacker_double_touched_ball_case, placement_succeeded_case, penalty_kick_failed_case,
  no_progress_in_game_case, placement_failed_case, multiple_cards_case, multiple_fouls_case,
  bot_substitution_case, excessive_bot_substitution_case, too_many_robots_case, challenge_flag_case,
  challenge_flag_handled_case, emergency_stop_case, unsporting_behavior_minor_case,
  unsporting_behavior_major_case,
}
use ssl_ros_bridge.Conversion.GameEvents.Message.{
  GameEventMsg, game_event_from_proto, multiple_fouls_from_proto,
}

-- A message with no event.
abbrev pub without_event : GameEventHeader → GameEventMsg
without_event header = record {
  id = or_default "" header.id;
  type = game_event_type_number (or_default unknown_game_event_type header.type) % 2 ^ 8;
  origin = header.origin;
  created_timestamp = or_default 0 header.created_timestamp;
  ball_left_field_touch_line = [];
  ball_left_field_goal_line = [];
  aimless_kick = [];
  attacker_too_close_to_defense_area = [];
  defender_in_defense_area = [];
  boundary_crossing = [];
  keeper_held_ball = [];
  bot_dribbled_ball_too_far = [];
  bot_pushed_bot = [];
  bot_held_ball_deliberately = [];
  bot_tipped_over = [];
  bot_dropped_parts = [];
  attacker_touched_ball_in_defense_area = [];
  bot_kicked_ball_too_fast = [];
  bot_crash_unique = [];
  bot_crash_drawn = [];
  defender_too_close_to_kick_point = [];
  bot_too_fast_in_stop = [];
  bot_interfered_placement = [];
  possible_goal = [];
  goal = [];
  invalid_goal = [];
  attacker_double_touched_ball = [];
  placement_succeeded = [];
  penalty_kick_failed = [];
  no_progress_in_game = [];
  placement_failed = [];
  multiple_cards = [];
  multiple_fouls = [];
  bot_substitution = [];
  excessive_bot_substitution = [];
  too_many_robots = [];
  challenge_flag = [];
  challenge_flag_handled = [];
  emergency_stop = [];
  unsporting_behavior_minor = [];
  unsporting_behavior_major = [];
  prepared = [];
  indirect_goal = [];
  chipped_goal = [];
  kick_timeout = [];
  attacker_touched_opponent_in_defense_area = [];
  attacker_touched_opponent_in_defense_area_skipped = [];
  bot_crash_unique_skipped = [];
  bot_pushed_bot_skipped = [];
  defender_in_defense_area_partially = [];
  multiple_placement_failures = [];
}

unfoldable pub dispatch : GameEventHeader → Event → GameEventMsg
dispatch h (ball_left_field_touch_line m) = record (without_event h) {
  ball_left_field_touch_line = ball_left_field_from_proto m ∷ [];
}
dispatch h (ball_left_field_goal_line m) = record (without_event h) {
  ball_left_field_goal_line = ball_left_field_from_proto m ∷ [];
}
dispatch h (aimless_kick m) = record (without_event h) {
  aimless_kick = aimless_kick_from_proto m ∷ [];
}
dispatch h (attacker_too_close_to_defense_area m) = record (without_event h) {
  attacker_too_close_to_defense_area = attacker_too_close_to_defense_area_from_proto m ∷ [];
}
dispatch h (defender_in_defense_area m) = record (without_event h) {
  defender_in_defense_area = defender_in_defense_area_from_proto m ∷ [];
}
dispatch h (boundary_crossing m) = record (without_event h) {
  boundary_crossing = boundary_crossing_from_proto m ∷ [];
}
dispatch h (keeper_held_ball m) = record (without_event h) {
  keeper_held_ball = keeper_held_ball_from_proto m ∷ [];
}
dispatch h (bot_dribbled_ball_too_far m) = record (without_event h) {
  bot_dribbled_ball_too_far = bot_dribbled_ball_too_far_from_proto m ∷ [];
}
dispatch h (bot_pushed_bot m) = record (without_event h) {
  bot_pushed_bot = bot_pushed_bot_from_proto m ∷ [];
}
dispatch h (bot_held_ball_deliberately m) = record (without_event h) {
  bot_held_ball_deliberately = bot_held_ball_deliberately_from_proto m ∷ [];
}
dispatch h (bot_tipped_over m) = record (without_event h) {
  bot_tipped_over = bot_tipped_over_from_proto m ∷ [];
}
dispatch h (bot_dropped_parts m) = record (without_event h) {
  bot_dropped_parts = bot_dropped_parts_from_proto m ∷ [];
}
dispatch h (attacker_touched_ball_in_defense_area m) = record (without_event h) {
  attacker_touched_ball_in_defense_area = attacker_touched_ball_in_defense_area_from_proto m ∷ [];
}
dispatch h (bot_kicked_ball_too_fast m) = record (without_event h) {
  bot_kicked_ball_too_fast = bot_kicked_ball_too_fast_from_proto m ∷ [];
}
dispatch h (bot_crash_unique m) = record (without_event h) {
  bot_crash_unique = bot_crash_unique_from_proto m ∷ [];
}
dispatch h (bot_crash_drawn m) = record (without_event h) {
  bot_crash_drawn = bot_crash_drawn_from_proto m ∷ [];
}
dispatch h (defender_too_close_to_kick_point m) = record (without_event h) {
  defender_too_close_to_kick_point = defender_too_close_to_kick_point_from_proto m ∷ [];
}
dispatch h (bot_too_fast_in_stop m) = record (without_event h) {
  bot_too_fast_in_stop = bot_too_fast_in_stop_from_proto m ∷ [];
}
dispatch h (bot_interfered_placement m) = record (without_event h) {
  bot_interfered_placement = bot_interfered_placement_from_proto m ∷ [];
}
dispatch h (possible_goal m) = record (without_event h) { possible_goal = goal_from_proto m ∷ [] }
dispatch h (goal m) = record (without_event h) { goal = goal_from_proto m ∷ [] }
dispatch h (invalid_goal m) = record (without_event h) { invalid_goal = goal_from_proto m ∷ [] }
dispatch h (attacker_double_touched_ball m) = record (without_event h) {
  attacker_double_touched_ball = attacker_double_touched_ball_from_proto m ∷ [];
}
dispatch h (placement_succeeded m) = record (without_event h) {
  placement_succeeded = placement_succeeded_from_proto m ∷ [];
}
dispatch h (penalty_kick_failed m) = record (without_event h) {
  penalty_kick_failed = penalty_kick_failed_from_proto m ∷ [];
}
dispatch h (no_progress_in_game m) = record (without_event h) {
  no_progress_in_game = no_progress_in_game_from_proto m ∷ [];
}
dispatch h (placement_failed m) = record (without_event h) {
  placement_failed = placement_failed_from_proto m ∷ [];
}
dispatch h (multiple_cards m) = record (without_event h) {
  multiple_cards = multiple_cards_from_proto m ∷ [];
}
dispatch h (multiple_fouls m) = record (without_event h) {
  multiple_fouls = multiple_fouls_from_proto m ∷ [];
}
dispatch h (bot_substitution m) = record (without_event h) {
  bot_substitution = bot_substitution_from_proto m ∷ [];
}
dispatch h (excessive_bot_substitution m) = record (without_event h) {
  excessive_bot_substitution = excessive_bot_substitution_from_proto m ∷ [];
}
dispatch h (too_many_robots m) = record (without_event h) {
  too_many_robots = too_many_robots_from_proto m ∷ [];
}
dispatch h (challenge_flag m) = record (without_event h) {
  challenge_flag = challenge_flag_from_proto m ∷ [];
}
dispatch h (challenge_flag_handled m) = record (without_event h) {
  challenge_flag_handled = challenge_flag_handled_from_proto m ∷ [];
}
dispatch h (emergency_stop m) = record (without_event h) {
  emergency_stop = emergency_stop_from_proto m ∷ [];
}
dispatch h (unsporting_behavior_minor m) = record (without_event h) {
  unsporting_behavior_minor = unsporting_behavior_minor_from_proto m ∷ [];
}
dispatch h (unsporting_behavior_major m) = record (without_event h) {
  unsporting_behavior_major = unsporting_behavior_major_from_proto m ∷ [];
}
-- the cases that the conversion passes over, and no case
dispatch h no_event = without_event h
dispatch h (prepared m) = without_event h
dispatch h (indirect_goal m) = without_event h
dispatch h (chipped_goal m) = without_event h
dispatch h (kick_timeout m) = without_event h
dispatch h (attacker_touched_opponent_in_defense_area m) = without_event h
dispatch h (attacker_touched_opponent_in_defense_area_skipped m) = without_event h
dispatch h (bot_crash_unique_skipped m) = without_event h
dispatch h (bot_pushed_bot_skipped m) = without_event h
dispatch h (defender_in_defense_area_partially m) = without_event h
dispatch h (multiple_placement_failures m) = without_event h

-- ===== src/Conversion/Enums/GameEventTypes.antt =====
-- What the constants of the message GameEvent.msg call a
-- number, and that this is the enumerator that had it.
use ssl_ros_bridge.Prelude.{ℕ, ◌%◌, ◌^◌, ◌≡◌, refl, Option, none, some, ◌==◌, if◌then◌else◌}
use ssl_ros_bridge.Conversion.Enums.{
  GameEventType, game_event_type_number, unknown_game_event_type, ball_left_field_touch_line,
  ball_left_field_goal_line, aimless_kick, attacker_too_close_to_defense_area,
  defender_in_defense_area, boundary_crossing, keeper_held_ball, bot_dribbled_ball_too_far,
  bot_pushed_bot, bot_held_ball_deliberately, bot_tipped_over, bot_dropped_parts,
  attacker_touched_ball_in_defense_area, bot_kicked_ball_too_fast, bot_crash_unique,
  bot_crash_drawn, defender_too_close_to_kick_point, bot_too_fast_in_stop, bot_interfered_placement,
  excessive_bot_substitution, possible_goal, goal, invalid_goal, attacker_double_touched_ball,
  placement_succeeded, penalty_kick_failed, no_progress_in_game, placement_failed, multiple_cards,
  multiple_fouls, bot_substitution, too_many_robots, challenge_flag, challenge_flag_handled,
  emergency_stop, unsporting_behavior_minor, unsporting_behavior_major, prepared, indirect_goal,
  chipped_goal, kick_timeout, attacker_touched_opponent_in_defense_area,
  attacker_touched_opponent_in_defense_area_skipped, bot_crash_unique_skipped,
  bot_pushed_bot_skipped, defender_in_defense_area_partially, multiple_placement_failures,
}

unfoldable pub game_event_type_called : ℕ → Option GameEventType
game_event_type_called n =
    if n == 0
    then some unknown_game_event_type
    else if n == 6
    then some ball_left_field_touch_line
    else if n == 7
    then some ball_left_field_goal_line
    else if n == 11
    then some aimless_kick
    else if n == 19
    then some attacker_too_close_to_defense_area
    else if n == 31
    then some defender_in_defense_area
    else if n == 41
    then some boundary_crossing
    else if n == 13
    then some keeper_held_ball
    else if n == 17
    then some bot_dribbled_ball_too_far
    else if n == 24
    then some bot_pushed_bot
    else if n == 26
    then some bot_held_ball_deliberately
    else if n == 27
    then some bot_tipped_over
    else if n == 47
    then some bot_dropped_parts
    else if n == 15
    then some attacker_touched_ball_in_defense_area
    else if n == 18
    then some bot_kicked_ball_too_fast
    else if n == 22
    then some bot_crash_unique
    else if n == 21
    then some bot_crash_drawn
    else if n == 29
    then some defender_too_close_to_kick_point
    else if n == 28
    then some bot_too_fast_in_stop
    else if n == 20
    then some bot_interfered_placement
    else if n == 48
    then some excessive_bot_substitution
    else if n == 39
    then some possible_goal
    else if n == 8
    then some goal
    else if n == 42
    then some invalid_goal
    else if n == 14
    then some attacker_double_touched_ball
    else if n == 5
    then some placement_succeeded
    else if n == 43
    then some penalty_kick_failed
    else if n == 2
    then some no_progress_in_game
    else if n == 3
    then some placement_failed
    else if n == 32
    then some multiple_cards
    else if n == 34
    then some multiple_fouls
    else if n == 37
    then some bot_substitution
    else if n == 38
    then some too_many_robots
    else if n == 44
    then some challenge_flag
    else if n == 46
    then some challenge_flag_handled
    else if n == 45
    then some emergency_stop
    else if n == 35
    then some unsporting_behavior_minor
    else if n == 36
    then some unsporting_behavior_major
    else if n == 1
    then some prepared
    else if n == 9
    then some indirect_goal
    else if n == 10
    then some chipped_goal
    else if n == 12
    then some kick_timeout
    else if n == 16
    then some attacker_touched_opponent_in_defense_area
    else if n == 40
    then some attacker_touched_opponent_in_defense_area_skipped
    else if n == 23
    then some bot_crash_unique_skipped
    else if n == 25
    then some bot_pushed_bot_skipped
    else if n == 30
    then some defender_in_defense_area_partially
    else if n == 33
    then some multiple_placement_failures
    else none

-- The number of a game event's type, cut to the message's `uint8`, is one that the message's constants
-- give back to that type.
pub game_event_type_called-game_event_type_number :
    (e : GameEventType) → game_event_type_called (game_event_type_number e % 2 ^ 8) ≡ some e
unfolding game_event_type_called game_event_type_number
game_event_type_called-game_event_type_number unknown_game_event_type = refl
game_event_type_called-game_event_type_number ball_left_field_touch_line = refl
game_event_type_called-game_event_type_number ball_left_field_goal_line = refl
game_event_type_called-game_event_type_number aimless_kick = refl
game_event_type_called-game_event_type_number attacker_too_close_to_defense_area = refl
game_event_type_called-game_event_type_number defender_in_defense_area = refl
game_event_type_called-game_event_type_number boundary_crossing = refl
game_event_type_called-game_event_type_number keeper_held_ball = refl
game_event_type_called-game_event_type_number bot_dribbled_ball_too_far = refl
game_event_type_called-game_event_type_number bot_pushed_bot = refl
game_event_type_called-game_event_type_number bot_held_ball_deliberately = refl
game_event_type_called-game_event_type_number bot_tipped_over = refl
game_event_type_called-game_event_type_number bot_dropped_parts = refl
game_event_type_called-game_event_type_number attacker_touched_ball_in_defense_area = refl
game_event_type_called-game_event_type_number bot_kicked_ball_too_fast = refl
game_event_type_called-game_event_type_number bot_crash_unique = refl
game_event_type_called-game_event_type_number bot_crash_drawn = refl
game_event_type_called-game_event_type_number defender_too_close_to_kick_point = refl
game_event_type_called-game_event_type_number bot_too_fast_in_stop = refl
game_event_type_called-game_event_type_number bot_interfered_placement = refl
game_event_type_called-game_event_type_number excessive_bot_substitution = refl
game_event_type_called-game_event_type_number possible_goal = refl
game_event_type_called-game_event_type_number goal = refl
game_event_type_called-game_event_type_number invalid_goal = refl
game_event_type_called-game_event_type_number attacker_double_touched_ball = refl
game_event_type_called-game_event_type_number placement_succeeded = refl
game_event_type_called-game_event_type_number penalty_kick_failed = refl
game_event_type_called-game_event_type_number no_progress_in_game = refl
game_event_type_called-game_event_type_number placement_failed = refl
game_event_type_called-game_event_type_number multiple_cards = refl
game_event_type_called-game_event_type_number multiple_fouls = refl
game_event_type_called-game_event_type_number bot_substitution = refl
game_event_type_called-game_event_type_number too_many_robots = refl
game_event_type_called-game_event_type_number challenge_flag = refl
game_event_type_called-game_event_type_number challenge_flag_handled = refl
game_event_type_called-game_event_type_number emergency_stop = refl
game_event_type_called-game_event_type_number unsporting_behavior_minor = refl
game_event_type_called-game_event_type_number unsporting_behavior_major = refl
game_event_type_called-game_event_type_number prepared = refl
game_event_type_called-game_event_type_number indirect_goal = refl
game_event_type_called-game_event_type_number chipped_goal = refl
game_event_type_called-game_event_type_number kick_timeout = refl
game_event_type_called-game_event_type_number attacker_touched_opponent_in_defense_area = refl
game_event_type_called-game_event_type_number attacker_touched_opponent_in_defense_area_skipped =
    refl
game_event_type_called-game_event_type_number bot_crash_unique_skipped = refl
game_event_type_called-game_event_type_number bot_pushed_bot_skipped = refl
game_event_type_called-game_event_type_number defender_in_defense_area_partially = refl
game_event_type_called-game_event_type_number multiple_placement_failures = refl

-- ===== src/Conversion/Enums.antt =====
-- The enumerations of the protocol with their numbers, and what the constants of the ROS messages say
-- that a number means.
pub mod Constants
pub mod GameEventTypes
use ssl_ros_bridge.Prelude.{ℕ}
use ssl_ros_bridge.TeamClient.Messages.{Team, unknown, yellow, blue}

unfoldable pub team_number : Team → ℕ
team_number unknown = 0
team_number yellow = 1
team_number blue = 2

-- `Referee.Stage`
pub data Stage : Type 0 where
  normal_first_half_pre normal_first_half normal_half_time normal_second_half_pre normal_second_half
        extra_time_break extra_first_half_pre extra_first_half extra_half_time extra_second_half_pre
        extra_second_half penalty_shootout_break penalty_shootout post_game :
      Stage

unfoldable pub stage_number : Stage → ℕ
stage_number normal_first_half_pre = 0
stage_number normal_first_half = 1
stage_number normal_half_time = 2
stage_number normal_second_half_pre = 3
stage_number normal_second_half = 4
stage_number extra_time_break = 5
stage_number extra_first_half_pre = 6
stage_number extra_first_half = 7
stage_number extra_half_time = 8
stage_number extra_second_half_pre = 9
stage_number extra_second_half = 10
stage_number penalty_shootout_break = 11
stage_number penalty_shootout = 12
stage_number post_game = 13

-- `Referee.Command`
pub data Command : Type 0 where
  halt stop normal_start force_start prepare_kickoff_yellow prepare_kickoff_blue
        prepare_penalty_yellow prepare_penalty_blue direct_free_yellow direct_free_blue
        indirect_free_yellow indirect_free_blue timeout_yellow timeout_blue goal_yellow goal_blue
        ball_placement_yellow ball_placement_blue :
      Command

unfoldable pub command_number : Command → ℕ
command_number halt = 0
command_number stop = 1
command_number normal_start = 2
command_number force_start = 3
command_number prepare_kickoff_yellow = 4
command_number prepare_kickoff_blue = 5
command_number prepare_penalty_yellow = 6
command_number prepare_penalty_blue = 7
command_number direct_free_yellow = 8
command_number direct_free_blue = 9
command_number indirect_free_yellow = 10
command_number indirect_free_blue = 11
command_number timeout_yellow = 12
command_number timeout_blue = 13
command_number goal_yellow = 14
command_number goal_blue = 15
command_number ball_placement_yellow = 16
command_number ball_placement_blue = 17

-- `MatchType`
pub data MatchType : Type 0 where
  unknown_match group_phase elimination_phase friendly : MatchType

unfoldable pub match_type_number : MatchType → ℕ
match_type_number unknown_match = 0
match_type_number group_phase = 1
match_type_number elimination_phase = 2
match_type_number friendly = 3

-- `Division`
pub data Division : Type 0 where
  div_unknown div_a div_b : Division

unfoldable pub division_number : Division → ℕ
division_number div_unknown = 0
division_number div_a = 1
division_number div_b = 2

-- `GameEvent.Type`
pub data GameEventType : Type 0 where
  unknown_game_event_type ball_left_field_touch_line ball_left_field_goal_line aimless_kick
        attacker_too_close_to_defense_area defender_in_defense_area boundary_crossing
        keeper_held_ball bot_dribbled_ball_too_far bot_pushed_bot bot_held_ball_deliberately
        bot_tipped_over bot_dropped_parts attacker_touched_ball_in_defense_area
        bot_kicked_ball_too_fast bot_crash_unique bot_crash_drawn defender_too_close_to_kick_point
        bot_too_fast_in_stop bot_interfered_placement excessive_bot_substitution possible_goal goal
        invalid_goal attacker_double_touched_ball placement_succeeded penalty_kick_failed
        no_progress_in_game placement_failed multiple_cards multiple_fouls bot_substitution
        too_many_robots challenge_flag challenge_flag_handled emergency_stop
        unsporting_behavior_minor unsporting_behavior_major prepared indirect_goal chipped_goal
        kick_timeout attacker_touched_opponent_in_defense_area
        attacker_touched_opponent_in_defense_area_skipped bot_crash_unique_skipped
        bot_pushed_bot_skipped defender_in_defense_area_partially multiple_placement_failures :
      GameEventType

unfoldable pub game_event_type_number : GameEventType → ℕ
game_event_type_number unknown_game_event_type = 0
game_event_type_number ball_left_field_touch_line = 6
game_event_type_number ball_left_field_goal_line = 7
game_event_type_number aimless_kick = 11
game_event_type_number attacker_too_close_to_defense_area = 19
game_event_type_number defender_in_defense_area = 31
game_event_type_number boundary_crossing = 41
game_event_type_number keeper_held_ball = 13
game_event_type_number bot_dribbled_ball_too_far = 17
game_event_type_number bot_pushed_bot = 24
game_event_type_number bot_held_ball_deliberately = 26
game_event_type_number bot_tipped_over = 27
game_event_type_number bot_dropped_parts = 47
game_event_type_number attacker_touched_ball_in_defense_area = 15
game_event_type_number bot_kicked_ball_too_fast = 18
game_event_type_number bot_crash_unique = 22
game_event_type_number bot_crash_drawn = 21
game_event_type_number defender_too_close_to_kick_point = 29
game_event_type_number bot_too_fast_in_stop = 28
game_event_type_number bot_interfered_placement = 20
game_event_type_number excessive_bot_substitution = 48
game_event_type_number possible_goal = 39
game_event_type_number goal = 8
game_event_type_number invalid_goal = 42
game_event_type_number attacker_double_touched_ball = 14
game_event_type_number placement_succeeded = 5
game_event_type_number penalty_kick_failed = 43
game_event_type_number no_progress_in_game = 2
game_event_type_number placement_failed = 3
game_event_type_number multiple_cards = 32
game_event_type_number multiple_fouls = 34
game_event_type_number bot_substitution = 37
game_event_type_number too_many_robots = 38
game_event_type_number challenge_flag = 44
game_event_type_number challenge_flag_handled = 46
game_event_type_number emergency_stop = 45
game_event_type_number unsporting_behavior_minor = 35
game_event_type_number unsporting_behavior_major = 36
game_event_type_number prepared = 1
game_event_type_number indirect_goal = 9
game_event_type_number chipped_goal = 10
game_event_type_number kick_timeout = 12
game_event_type_number attacker_touched_opponent_in_defense_area = 16
game_event_type_number attacker_touched_opponent_in_defense_area_skipped = 40
game_event_type_number bot_crash_unique_skipped = 23
game_event_type_number bot_pushed_bot_skipped = 25
game_event_type_number defender_in_defense_area_partially = 30
game_event_type_number multiple_placement_failures = 33

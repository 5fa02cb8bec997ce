-- ===== src/Conversion/Enums/Constants.antt =====
-- What the constants of the messages Referee.msg, Division.msg and Team.msg call a
-- number, and that this is the enumerator that had it.
use ssl_ros_bridge.Prelude.{ℕ, ◌%◌, ◌^◌, ◌≡◌, refl, Option, none, some, ◌==◌, if◌then◌else◌}
use ssl_ros_bridge.TeamClient.Messages.{Team, unknown, yellow, blue}
use ssl_ros_bridge.Conversion.Enums.{
  Stage, stage_number, normal_first_half_pre, normal_first_half, normal_half_time,
  normal_second_half_pre, normal_second_half, extra_time_break, extra_first_half_pre,
  extra_first_half, extra_half_time, extra_second_half_pre, extra_second_half,
  penalty_shootout_break, penalty_shootout, post_game, Command, command_number, halt, stop,
  normal_start, force_start, prepare_kickoff_yellow, prepare_kickoff_blue, prepare_penalty_yellow,
  prepare_penalty_blue, direct_free_yellow, direct_free_blue, indirect_free_yellow,
  indirect_free_blue, timeout_yellow, timeout_blue, goal_yellow, goal_blue, ball_placement_yellow,
  ball_placement_blue, MatchType, match_type_number, unknown_match, group_phase, elimination_phase,
  friendly, Division, division_number, div_unknown, div_a, div_b, team_number,
}

unfoldable pub team_called : ℕ → Option Team
team_called n =
    if n == 0
    then some unknown
    else if n == 1
    then some yellow
    else if n == 2
    then some blue
    else none

unfoldable pub stage_called : ℕ → Option Stage
stage_called n =
    if n == 0
    then some normal_first_half_pre
    else if n == 1
    then some normal_first_half
    else if n == 2
    then some normal_half_time
    else if n == 3
    then some normal_second_half_pre
    else if n == 4
    then some normal_second_half
    else if n == 5
    then some extra_time_break
    else if n == 6
    then some extra_first_half_pre
    else if n == 7
    then some extra_first_half
    else if n == 8
    then some extra_half_time
    else if n == 9
    then some extra_second_half_pre
    else if n == 10
    then some extra_second_half
    else if n == 11
    then some penalty_shootout_break
    else if n == 12
    then some penalty_shootout
    else if n == 13
    then some post_game
    else none

unfoldable pub command_called : ℕ → Option Command
command_called n =
    if n == 0
    then some halt
    else if n == 1
    then some stop
    else if n == 2
    then some normal_start
    else if n == 3
    then some force_start
    else if n == 4
    then some prepare_kickoff_yellow
    else if n == 5
    then some prepare_kickoff_blue
    else if n == 6
    then some prepare_penalty_yellow
    else if n == 7
    then some prepare_penalty_blue
    else if n == 8
    then some direct_free_yellow
    else if n == 9
    then some direct_free_blue
    else if n == 12
    then some timeout_yellow
    else if n == 13
    then some timeout_blue
    else if n == 16
    then some ball_placement_yellow
    else if n == 17
    then some ball_placement_blue
    else if n == 10
    then some indirect_free_yellow
    else if n == 11
    then some indirect_free_blue
    else if n == 14
    then some goal_yellow
    else if n == 15
    then some goal_blue
    else none

unfoldable pub match_type_called : ℕ → Option MatchType
match_type_called n =
    if n == 0
    then some unknown_match
    else if n == 1
    then some group_phase
    else if n == 2
    then some elimination_phase
    else if n == 3
    then some friendly
    else none

unfoldable pub division_called : ℕ → Option Division
division_called n =
    if n == 0
    then some div_unknown
    else if n == 1
    then some div_a
    else if n == 2
    then some div_b
    else none

pub team_called-team_number : (e : Team) → team_called (team_number e % 2 ^ 8) ≡ some e
unfolding team_called team_number
team_called-team_number unknown = refl
team_called-team_number yellow = refl
team_called-team_number blue = refl

pub stage_called-stage_number : (e : Stage) → stage_called (stage_number e % 2 ^ 8) ≡ some e
unfolding stage_called stage_number
stage_called-stage_number normal_first_half_pre = refl
stage_called-stage_number normal_first_half = refl
stage_called-stage_number normal_half_time = refl
stage_called-stage_number normal_second_half_pre = refl
stage_called-stage_number normal_second_half = refl
stage_called-stage_number extra_time_break = refl
stage_called-stage_number extra_first_half_pre = refl
stage_called-stage_number extra_first_half = refl
stage_called-stage_number extra_half_time = refl
stage_called-stage_number extra_second_half_pre = refl
stage_called-stage_number extra_second_half = refl
stage_called-stage_number penalty_shootout_break = refl
stage_called-stage_number penalty_shootout = refl
stage_called-stage_number post_game = refl

pub command_called-command_number :
    (e : Command) → command_called (command_number e % 2 ^ 8) ≡ some e
unfolding command_called command_number
command_called-command_number halt = refl
command_called-command_number stop = refl
command_called-command_number normal_start = refl
command_called-command_number force_start = refl
command_called-command_number prepare_kickoff_yellow = refl
command_called-command_number prepare_kickoff_blue = refl
command_called-command_number prepare_penalty_yellow = refl
command_called-command_number prepare_penalty_blue = refl
command_called-command_number direct_free_yellow = refl
command_called-command_number direct_free_blue = refl
command_called-command_number indirect_free_yellow = refl
command_called-command_number indirect_free_blue = refl
command_called-command_number timeout_yellow = refl
command_called-command_number timeout_blue = refl
command_called-command_number goal_yellow = refl
command_called-command_number goal_blue = refl
command_called-command_number ball_placement_yellow = refl
command_called-command_number ball_placement_blue = refl

pub match_type_called-match_type_number :
    (e : MatchType) → match_type_called (match_type_number e % 2 ^ 8) ≡ some e
unfolding match_type_called match_type_number
match_type_called-match_type_number unknown_match = refl
match_type_called-match_type_number group_phase = refl
match_type_called-match_type_number elimination_phase = refl
match_type_called-match_type_number friendly = refl

pub division_called-division_number :
    (e : Division) → division_called (division_number e % 2 ^ 8) ≡ some e
unfolding division_called division_number
division_called-division_number div_unknown = refl
division_called-division_number div_a = refl
division_called-division_number div_b = refl

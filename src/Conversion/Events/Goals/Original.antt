-- ===== src/Conversion/Events/Goals/Original.antt =====
-- The events of Goals.antt read back.
use ssl_ros_bridge.Prelude.{none, ◌≡◌, map}
use ssl_ros_bridge.Conversion.Fields.{first}
use ssl_ros_bridge.Conversion.Common.Original.{original_vector2, original_team, originals}
use ssl_ros_bridge.Conversion.Events.Goals.{
  BallLeftField, BallLeftFieldMsg, ball_left_field_from_proto, AimlessKick, AimlessKickMsg,
  aimless_kick_from_proto, Goal, GoalMsg, goal_from_proto, IndirectGoal, IndirectGoalMsg,
  indirect_goal_from_proto, ChippedGoal, ChippedGoalMsg, chipped_goal_from_proto, PenaltyKickFailed,
  PenaltyKickFailedMsg, penalty_kick_failed_from_proto, KickTimeout, KickTimeoutMsg,
  kick_timeout_from_proto, NoProgressInGame, NoProgressInGameMsg, no_progress_in_game_from_proto,
  Prepared, PreparedMsg, prepared_from_proto,
}

unfoldable pub original_ball_left_field : BallLeftFieldMsg → BallLeftField
original_ball_left_field ros_msg = record {
  by_team = original_team ros_msg.by_team;
  by_bot = first ros_msg.by_bot;
  location = first (map original_vector2 ros_msg.location);
}

pub original_ball_left_field-ball_left_field_from_proto :
    (m : BallLeftField) → original_ball_left_field (ball_left_field_from_proto m) ≡ m
unfolding original_ball_left_field ball_left_field_from_proto
original_ball_left_field-ball_left_field_from_proto m = simp originals

unfoldable pub original_aimless_kick : AimlessKickMsg → AimlessKick
original_aimless_kick ros_msg = record {
  by_team = original_team ros_msg.by_team;
  by_bot = first ros_msg.by_bot;
  location = first (map original_vector2 ros_msg.location);
  kick_location = first (map original_vector2 ros_msg.kick_location);
}

pub original_aimless_kick-aimless_kick_from_proto :
    (m : AimlessKick) → original_aimless_kick (aimless_kick_from_proto m) ≡ m
unfolding original_aimless_kick aimless_kick_from_proto
original_aimless_kick-aimless_kick_from_proto m = simp originals

unfoldable pub original_goal : GoalMsg → Goal
original_goal ros_msg = record {
  by_team = original_team ros_msg.by_team;
  kicking_team = first (map original_team ros_msg.kicking_team);
  kicking_bot = first ros_msg.kicking_bot;
  location = first (map original_vector2 ros_msg.location);
  kick_location = first (map original_vector2 ros_msg.kick_location);
  max_ball_height = first ros_msg.max_ball_height;
  num_robots_by_team = first ros_msg.num_robots_by_team;
  last_touch_by_team = first ros_msg.last_touch_by_team;
  message = first ros_msg.message;
}

pub original_goal-goal_from_proto : (m : Goal) → original_goal (goal_from_proto m) ≡ m
unfolding original_goal goal_from_proto
original_goal-goal_from_proto m = simp originals

unfoldable pub original_indirect_goal : IndirectGoalMsg → IndirectGoal
original_indirect_goal ros_msg = record {
  by_team = original_team ros_msg.by_team;
  by_bot = first ros_msg.by_bot;
  location = first (map original_vector2 ros_msg.location);
  kick_location = first (map original_vector2 ros_msg.kick_location);
}

pub original_indirect_goal-indirect_goal_from_proto :
    (m : IndirectGoal) → original_indirect_goal (indirect_goal_from_proto m) ≡ m
unfolding original_indirect_goal indirect_goal_from_proto
original_indirect_goal-indirect_goal_from_proto m = simp originals

unfoldable pub original_chipped_goal : ChippedGoalMsg → ChippedGoal
original_chipped_goal ros_msg = record {
  by_team = original_team ros_msg.by_team;
  by_bot = first ros_msg.by_bot;
  location = first (map original_vector2 ros_msg.location);
  kick_location = first (map original_vector2 ros_msg.kick_location);
  max_ball_height = first ros_msg.max_ball_height;
}

pub original_chipped_goal-chipped_goal_from_proto :
    (m : ChippedGoal) → original_chipped_goal (chipped_goal_from_proto m) ≡ m
unfolding original_chipped_goal chipped_goal_from_proto
original_chipped_goal-chipped_goal_from_proto m = simp originals

unfoldable pub original_penalty_kick_failed : PenaltyKickFailedMsg → PenaltyKickFailed
original_penalty_kick_failed ros_msg = record {
  by_team = original_team ros_msg.by_team;
  location = first (map original_vector2 ros_msg.location);
  reason = first ros_msg.reason;
}

pub original_penalty_kick_failed-penalty_kick_failed_from_proto :
    (m : PenaltyKickFailed)
    → original_penalty_kick_failed (penalty_kick_failed_from_proto m) ≡ record m { reason = none }
unfolding original_penalty_kick_failed penalty_kick_failed_from_proto
original_penalty_kick_failed-penalty_kick_failed_from_proto m = simp originals

unfoldable pub original_kick_timeout : KickTimeoutMsg → KickTimeout
original_kick_timeout ros_msg = record {
  by_team = original_team ros_msg.by_team;
  location = first (map original_vector2 ros_msg.location);
  time = first ros_msg.time;
}

pub original_kick_timeout-kick_timeout_from_proto :
    (m : KickTimeout) → original_kick_timeout (kick_timeout_from_proto m) ≡ m
unfolding original_kick_timeout kick_timeout_from_proto
original_kick_timeout-kick_timeout_from_proto m = simp originals

unfoldable pub original_no_progress_in_game : NoProgressInGameMsg → NoProgressInGame
original_no_progress_in_game ros_msg = record {
  location = first (map original_vector2 ros_msg.location);
  time = first ros_msg.time;
}

pub original_no_progress_in_game-no_progress_in_game_from_proto :
    (m : NoProgressInGame) → original_no_progress_in_game (no_progress_in_game_from_proto m) ≡ m
unfolding original_no_progress_in_game no_progress_in_game_from_proto
original_no_progress_in_game-no_progress_in_game_from_proto m = simp originals

unfoldable pub original_prepared : PreparedMsg → Prepared
original_prepared ros_msg = record { time_taken = first ros_msg.time_taken }

pub original_prepared-prepared_from_proto :
    (m : Prepared) → original_prepared (prepared_from_proto m) ≡ m
unfolding original_prepared prepared_from_proto
original_prepared-prepared_from_proto m = simp originals

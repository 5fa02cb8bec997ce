-- ===== src/Conversion/GameEvents/Message.antt =====
-- The ROS message GameEvent and the conversion to it.
use ssl_ros_bridge.Prelude.{ℕ, ◌%◌, ◌^◌, String, List, []}
use ssl_ros_bridge.Conversion.Fields.{copy_optional_struct, or_default}
use ssl_ros_bridge.Conversion.Common.{TeamMsg, team_from_proto}
use ssl_ros_bridge.Conversion.Enums.{unknown_game_event_type, game_event_type_number}
use ssl_ros_bridge.Conversion.Events.Goals.{
  BallLeftFieldMsg, ball_left_field_from_proto, AimlessKickMsg, aimless_kick_from_proto, GoalMsg,
  goal_from_proto, IndirectGoalMsg, ChippedGoalMsg, PenaltyKickFailedMsg,
  penalty_kick_failed_from_proto, KickTimeoutMsg, NoProgressInGameMsg,
  no_progress_in_game_from_proto, PreparedMsg,
}
use ssl_ros_bridge.Conversion.Events.Areas.{
  AttackerDoubleTouchedBallMsg, attacker_double_touched_ball_from_proto,
  AttackerTooCloseToDefenseAreaMsg, attacker_too_close_to_defense_area_from_proto,
  AttackerTouchedBallInDefenseAreaMsg, attacker_touched_ball_in_defense_area_from_proto,
  AttackerTouchedOpponentInDefenseAreaMsg, DefenderInDefenseAreaMsg,
  defender_in_defense_area_from_proto, DefenderInDefenseAreaPartiallyMsg,
  DefenderTooCloseToKickPointMsg, defender_too_close_to_kick_point_from_proto, BoundaryCrossingMsg,
  boundary_crossing_from_proto, KeeperHeldBallMsg, keeper_held_ball_from_proto,
}
use ssl_ros_bridge.Conversion.Events.Robots.{
  BotCrashDrawnMsg, bot_crash_drawn_from_proto, BotCrashUniqueMsg, bot_crash_unique_from_proto,
  BotPushedBotMsg, bot_pushed_bot_from_proto, BotTippedOverMsg, bot_tipped_over_from_proto,
  BotDroppedPartsMsg, bot_dropped_parts_from_proto, BotHeldBallDeliberatelyMsg,
  bot_held_ball_deliberately_from_proto, BotDribbledBallTooFarMsg,
  bot_dribbled_ball_too_far_from_proto, BotKickedBallTooFastMsg,
  bot_kicked_ball_too_fast_from_proto, BotTooFastInStopMsg, bot_too_fast_in_stop_from_proto,
  BotInterferedPlacementMsg, bot_interfered_placement_from_proto,
}
use ssl_ros_bridge.Conversion.Events.Sanctions.{
  MultipleCardsMsg, multiple_cards_from_proto, MultiplePlacementFailuresMsg,
  UnsportingBehaviorMinorMsg, unsporting_behavior_minor_from_proto, UnsportingBehaviorMajorMsg,
  unsporting_behavior_major_from_proto, BotSubstitutionMsg, bot_substitution_from_proto,
  ExcessiveBotSubstitutionMsg, excessive_bot_substitution_from_proto, ChallengeFlagMsg,
  challenge_flag_from_proto, ChallengeFlagHandledMsg, challenge_flag_handled_from_proto,
  EmergencyStopMsg, emergency_stop_from_proto, TooManyRobotsMsg, too_many_robots_from_proto,
  PlacementFailedMsg, placement_failed_from_proto, PlacementSucceededMsg,
  placement_succeeded_from_proto,
}
use ssl_ros_bridge.Conversion.GameEvents.{GameEvent, game_event, MultipleFouls, fouls}
use ssl_ros_bridge.Conversion.GameEvents.Cases.{
  ball_left_field_touch_line_case, ball_left_field_goal_line_case, aimless_kick_case,
  attacker_too_close_to_defense_area_case, defender_in_defense_area_case, boundary_crossing_case,
  keeper_held_ball_case, bot_dribbled_ball_too_far_case, bot_pushed_bot_case,
  bot_held_ball_deliberately_case, bot_tipped_over_case, bot_dropped_parts_case,
  attacker_touched_ball_in_defense_area_case, bot_kicked_ball_too_fast_case, bot_crash_unique_case,
  bot_crash_drawn_case, defender_too_close_to_kick_point_case, bot_too_fast_in_stop_case,
  bot_interfered_placement_case, possible_goal_case, goal_case, invalid_goal_case,
  attacker_double_touched_ball_case, placement_succeeded_case, penalty_kick_failed_case,
  no_progress_in_game_case, placement_failed_case, multiple_cards_case, multiple_fouls_case,
  bot_substitution_case, excessive_bot_substitution_case, too_many_robots_case, challenge_flag_case,
  challenge_flag_handled_case, emergency_stop_case, unsporting_behavior_minor_case,
  unsporting_behavior_major_case,
}

pub record MultipleFoulsMsg : Type 0 where
  pub by_team : TeamMsg

unfoldable pub multiple_fouls_from_proto : MultipleFouls → MultipleFoulsMsg
multiple_fouls_from_proto (fouls by_team caused_game_events) = record {
  by_team = team_from_proto by_team;
}

pub record GameEventMsg : Type 0 where
  pub id : String
  pub type : ℕ
  pub origin : List String
  pub created_timestamp : ℕ
  pub ball_left_field_touch_line : List BallLeftFieldMsg
  pub ball_left_field_goal_line : List BallLeftFieldMsg
  pub aimless_kick : List AimlessKickMsg
  pub attacker_too_close_to_defense_area : List AttackerTooCloseToDefenseAreaMsg
  pub defender_in_defense_area : List DefenderInDefenseAreaMsg
  pub boundary_crossing : List BoundaryCrossingMsg
  pub keeper_held_ball : List KeeperHeldBallMsg
  pub bot_dribbled_ball_too_far : List BotDribbledBallTooFarMsg
  pub bot_pushed_bot : List BotPushedBotMsg
  pub bot_held_ball_deliberately : List BotHeldBallDeliberatelyMsg
  pub bot_tipped_over : List BotTippedOverMsg
  pub bot_dropped_parts : List BotDroppedPartsMsg
  pub attacker_touched_ball_in_defense_area : List AttackerTouchedBallInDefenseAreaMsg
  pub bot_kicked_ball_too_fast : List BotKickedBallTooFastMsg
  pub bot_crash_unique : List BotCrashUniqueMsg
  pub bot_crash_drawn : List BotCrashDrawnMsg
  pub defender_too_close_to_kick_point : List DefenderTooCloseToKickPointMsg
  pub bot_too_fast_in_stop : List BotTooFastInStopMsg
  pub bot_interfered_placement : List BotInterferedPlacementMsg
  pub possible_goal : List GoalMsg
  pub goal : List GoalMsg
  pub invalid_goal : List GoalMsg
  pub attacker_double_touched_ball : List AttackerDoubleTouchedBallMsg
  pub placement_succeeded : List PlacementSucceededMsg
  pub penalty_kick_failed : List PenaltyKickFailedMsg
  pub no_progress_in_game : List NoProgressInGameMsg
  pub placement_failed : List PlacementFailedMsg
  pub multiple_cards : List MultipleCardsMsg
  pub multiple_fouls : List MultipleFoulsMsg
  pub bot_substitution : List BotSubstitutionMsg
  pub excessive_bot_substitution : List ExcessiveBotSubstitutionMsg
  pub too_many_robots : List TooManyRobotsMsg
  pub challenge_flag : List ChallengeFlagMsg
  pub challenge_flag_handled : List ChallengeFlagHandledMsg
  pub emergency_stop : List EmergencyStopMsg
  pub unsporting_behavior_minor : List UnsportingBehaviorMinorMsg
  pub unsporting_behavior_major : List UnsportingBehaviorMajorMsg
  pub prepared : List PreparedMsg
  pub indirect_goal : List IndirectGoalMsg
  pub chipped_goal : List ChippedGoalMsg
  pub kick_timeout : List KickTimeoutMsg
  pub attacker_touched_opponent_in_defense_area : List AttackerTouchedOpponentInDefenseAreaMsg
  pub attacker_touched_opponent_in_defense_area_skipped :
      List AttackerTouchedOpponentInDefenseAreaMsg
  pub bot_crash_unique_skipped : List BotCrashUniqueMsg
  pub bot_pushed_bot_skipped : List BotPushedBotMsg
  pub defender_in_defense_area_partially : List DefenderInDefenseAreaPartiallyMsg
  pub multiple_placement_failures : List MultiplePlacementFailuresMsg

unfoldable pub game_event_from_proto : GameEvent → GameEventMsg
game_event_from_proto (game_event header event) = record {
  id = or_default "" header.id;
  type = game_event_type_number (or_default unknown_game_event_type header.type) % 2 ^ 8;
  origin = header.origin;
  created_timestamp = or_default 0 header.created_timestamp;
  ball_left_field_touch_line =
      copy_optional_struct ball_left_field_from_proto (ball_left_field_touch_line_case event);
  ball_left_field_goal_line =
      copy_optional_struct ball_left_field_from_proto (ball_left_field_goal_line_case event);
  aimless_kick = copy_optional_struct aimless_kick_from_proto (aimless_kick_case event);
  attacker_too_close_to_defense_area =
      copy_optional_struct attacker_too_close_to_defense_area_from_proto
        (attacker_too_close_to_defense_area_case event);
  defender_in_defense_area =
      copy_optional_struct defender_in_defense_area_from_proto
        (defender_in_defense_area_case event);
  boundary_crossing =
      copy_optional_struct boundary_crossing_from_proto (boundary_crossing_case event);
  keeper_held_ball = copy_optional_struct keeper_held_ball_from_proto (keeper_held_ball_case event);
  bot_dribbled_ball_too_far =
      copy_optional_struct bot_dribbled_ball_too_far_from_proto
        (bot_dribbled_ball_too_far_case event);
  bot_pushed_bot = copy_optional_struct bot_pushed_bot_from_proto (bot_pushed_bot_case event);
  bot_held_ball_deliberately =
      copy_optional_struct bot_held_ball_deliberately_from_proto
        (bot_held_ball_deliberately_case event);
  bot_tipped_over = copy_optional_struct bot_tipped_over_from_proto (bot_tipped_over_case event);
  bot_dropped_parts =
      copy_optional_struct bot_dropped_parts_from_proto (bot_dropped_parts_case event);
  attacker_touched_ball_in_defense_area =
      copy_optional_struct attacker_touched_ball_in_defense_area_from_proto
        (attacker_touched_ball_in_defense_area_case event);
  bot_kicked_ball_too_fast =
      copy_optional_struct bot_kicked_ball_too_fast_from_proto
        (bot_kicked_ball_too_fast_case event);
  bot_crash_unique = copy_optional_struct bot_crash_unique_from_proto (bot_crash_unique_case event);
  bot_crash_drawn = copy_optional_struct bot_crash_drawn_from_proto (bot_crash_drawn_case event);
  defender_too_close_to_kick_point =
      copy_optional_struct defender_too_close_to_kick_point_from_proto
        (defender_too_close_to_kick_point_case event);
  bot_too_fast_in_stop =
      copy_optional_struct bot_too_fast_in_stop_from_proto (bot_too_fast_in_stop_case event);
  bot_interfered_placement =
      copy_optional_struct bot_interfered_placement_from_proto
        (bot_interfered_placement_case event);
  possible_goal = copy_optional_struct goal_from_proto (possible_goal_case event);
  goal = copy_optional_struct goal_from_proto (goal_case event);
  invalid_goal = copy_optional_struct goal_from_proto (invalid_goal_case event);
  attacker_double_touched_ball =
      copy_optional_struct attacker_double_touched_ball_from_proto
        (attacker_double_touched_ball_case event);
  placement_succeeded =
      copy_optional_struct placement_succeeded_from_proto (placement_succeeded_case event);
  penalty_kick_failed =
      copy_optional_struct penalty_kick_failed_from_proto (penalty_kick_failed_case event);
  no_progress_in_game =
      copy_optional_struct no_progress_in_game_from_proto (no_progress_in_game_case event);
  placement_failed = copy_optional_struct placement_failed_from_proto (placement_failed_case event);
  multiple_cards = copy_optional_struct multiple_cards_from_proto (multiple_cards_case event);
  multiple_fouls = copy_optional_struct multiple_fouls_from_proto (multiple_fouls_case event);
  bot_substitution = copy_optional_struct bot_substitution_from_proto (bot_substitution_case event);
  excessive_bot_substitution =
      copy_optional_struct excessive_bot_substitution_from_proto
        (excessive_bot_substitution_case event);
  too_many_robots = copy_optional_struct too_many_robots_from_proto (too_many_robots_case event);
  challenge_flag = copy_optional_struct challenge_flag_from_proto (challenge_flag_case event);
  challenge_flag_handled =
      copy_optional_struct challenge_flag_handled_from_proto (challenge_flag_handled_case event);
  emergency_stop = copy_optional_struct emergency_stop_from_proto (emergency_stop_case event);
  unsporting_behavior_minor =
      copy_optional_struct unsporting_behavior_minor_from_proto
        (unsporting_behavior_minor_case event);
  unsporting_behavior_major =
      copy_optional_struct unsporting_behavior_major_from_proto
        (unsporting_behavior_major_case event);
  prepared = [];
  indirect_goal = [];
  chipped_goal = [];
  kick_timeout = [];
  attacker_touched_opponent_in_defense_area = [];
  attacker_touched_opponent_in_defense_area_skipped = [];
  bot_crash_unique_skipped = [];
  bot_pushed_bot_skipped = [];
  defender_in_defense_area_partially = [];
  multiple_placement_failures = [];
}

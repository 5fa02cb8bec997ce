-- ===== src/Conversion/GameEvents/Original.antt =====
-- A game event read back from its ROS message.
pub mod Recovered
use ssl_ros_bridge.Prelude.{ℕ, String, Option, none, some, List, [], ◌∷◌, ◌++◌, map}
use ssl_ros_bridge.TeamClient.Messages.{Team}
use ssl_ros_bridge.Conversion.Fields.{or_default}
use ssl_ros_bridge.Conversion.Common.Original.{original_team}
use ssl_ros_bridge.Conversion.Enums.{unknown_game_event_type}
use ssl_ros_bridge.Conversion.Enums.GameEventTypes.{game_event_type_called}
use ssl_ros_bridge.Conversion.Events.Goals.Original.{
  original_ball_left_field, original_aimless_kick, original_goal, original_indirect_goal,
  original_chipped_goal, original_penalty_kick_failed, original_kick_timeout,
  original_no_progress_in_game, original_prepared,
}
use ssl_ros_bridge.Conversion.Events.Areas.Original.{
  original_attacker_double_touched_ball, original_attacker_too_close_to_defense_area,
  original_attacker_touched_ball_in_defense_area,
  original_attacker_touched_opponent_in_defense_area, original_defender_in_defense_area,
  original_defender_in_defense_area_partially, original_defender_too_close_to_kick_point,
  original_boundary_crossing, original_keeper_held_ball,
}
use ssl_ros_bridge.Conversion.Events.Robots.Original.{
  original_bot_crash_drawn, original_bot_crash_unique, original_bot_pushed_bot,
  original_bot_tipped_over, original_bot_dropped_parts, original_bot_held_ball_deliberately,
  original_bot_dribbled_ball_too_far, original_bot_kicked_ball_too_fast,
  original_bot_too_fast_in_stop, original_bot_interfered_placement,
}
use ssl_ros_bridge.Conversion.Events.Sanctions.Original.{
  original_multiple_cards, original_multiple_placement_failures, original_unsporting_behavior_minor,
  original_unsporting_behavior_major, original_bot_substitution,
  original_excessive_bot_substitution, original_challenge_flag, original_challenge_flag_handled,
  original_emergency_stop, original_too_many_robots, original_placement_failed,
  original_placement_succeeded,
}
use ssl_ros_bridge.Conversion.GameEvents.{
  GameEventHeader, Event, no_event, MultipleFouls, fouls, nil, ball_left_field_touch_line,
  ball_left_field_goal_line, aimless_kick, attacker_too_close_to_defense_area,
  defender_in_defense_area, boundary_crossing, keeper_held_ball, bot_dribbled_ball_too_far,
  bot_pushed_bot, bot_held_ball_deliberately, bot_tipped_over, bot_dropped_parts,
  attacker_touched_ball_in_defense_area, bot_kicked_ball_too_fast, bot_crash_unique,
  bot_crash_drawn, defender_too_close_to_kick_point, bot_too_fast_in_stop, bot_interfered_placement,
  possible_goal, goal, invalid_goal, attacker_double_touched_ball, placement_succeeded,
  penalty_kick_failed, no_progress_in_game, placement_failed, multiple_cards, multiple_fouls,
  bot_substitution, excessive_bot_substitution, too_many_robots, challenge_flag,
  challenge_flag_handled, emergency_stop, unsporting_behavior_minor, unsporting_behavior_major,
  prepared, indirect_goal, chipped_goal, kick_timeout, attacker_touched_opponent_in_defense_area,
  attacker_touched_opponent_in_defense_area_skipped, bot_crash_unique_skipped,
  bot_pushed_bot_skipped, defender_in_defense_area_partially, multiple_placement_failures,
}
use ssl_ros_bridge.Conversion.GameEvents.Message.{GameEventMsg, MultipleFoulsMsg}

unfoldable pub original_multiple_fouls : MultipleFoulsMsg → MultipleFouls
original_multiple_fouls ros_msg = fouls (original_team ros_msg.by_team) nil

unfoldable pub original_header : GameEventMsg → GameEventHeader
original_header ros_msg = record {
  id = some ros_msg.id;
  type = game_event_type_called ros_msg.type;
  origin = ros_msg.origin;
  created_timestamp = some ros_msg.created_timestamp;
}

-- Every event that the message tells of, by the array that it stands in.
unfoldable pub original_events : GameEventMsg → List Event
original_events ros_msg =
    map (λ m. ball_left_field_touch_line (original_ball_left_field m))
      ros_msg.ball_left_field_touch_line
    ++ (map (λ m. ball_left_field_goal_line (original_ball_left_field m))
          ros_msg.ball_left_field_goal_line
        ++ (map (λ m. aimless_kick (original_aimless_kick m)) ros_msg.aimless_kick
            ++ (map
                  (λ m.
                    attacker_too_close_to_defense_area
                      (original_attacker_too_close_to_defense_area m))
                  ros_msg.attacker_too_close_to_defense_area
                ++ (map (λ m. defender_in_defense_area (original_defender_in_defense_area m))
                      ros_msg.defender_in_defense_area
                    ++ (map (λ m. boundary_crossing (original_boundary_crossing m))
                          ros_msg.boundary_crossing
                        ++ (map (λ m. keeper_held_ball (original_keeper_held_ball m))
                              ros_msg.keeper_held_ball
                            ++ (map
                                  (λ m.
                                    bot_dribbled_ball_too_far
                                      (original_bot_dribbled_ball_too_far m))
                                  ros_msg.bot_dribbled_ball_too_far
                                ++ (map (λ m. bot_pushed_bot (original_bot_pushed_bot m))
                                      ros_msg.bot_pushed_bot
                                    ++ (map
                                          (λ m.
                                            bot_held_ball_deliberately
                                              (original_bot_held_ball_deliberately m))
                                          ros_msg.bot_held_ball_deliberately
                                        ++ (map (λ m. bot_tipped_over (original_bot_tipped_over m))
                                              ros_msg.bot_tipped_over
                                            ++ (map
                                                  (λ m.
                                                    bot_dropped_parts
                                                      (original_bot_dropped_parts m))
                                                  ros_msg.bot_dropped_parts
                                                ++ (map
                                                      (λ m. attacker_touched_ball_in_defense_area (
                                                        original_attacker_touched_ball_in_defense_area
                                                          m))
                                                      ros_msg.attacker_touched_ball_in_defense_area
                                                    ++ (map
                                                          (λ m.
                                                            bot_kicked_ball_too_fast
                                                            (original_bot_kicked_ball_too_fast m))
                                                          ros_msg.bot_kicked_ball_too_fast
                                                        ++ (map
                                                            (λ m.
                                                            bot_crash_unique
                                                            (original_bot_crash_unique m))
                                                            ros_msg.bot_crash_unique
                                                            ++ (map
                                                            (λ m.
                                                            bot_crash_drawn
                                                            (original_bot_crash_drawn m))
                                                            ros_msg.bot_crash_drawn
                                                            ++ (map
                                                            (λ m. defender_too_close_to_kick_point (
                                                            original_defender_too_close_to_kick_point
                                                            m))
                                                            ros_msg.defender_too_close_to_kick_point
                                                            ++ (map
                                                            (λ m.
                                                            bot_too_fast_in_stop
                                                            (original_bot_too_fast_in_stop m))
                                                            ros_msg.bot_too_fast_in_stop
                                                            ++ (map
                                                            (λ m.
                                                            bot_interfered_placement
                                                            (original_bot_interfered_placement m))
                                                            ros_msg.bot_interfered_placement
                                                            ++ (map
                                                            (λ m. possible_goal (original_goal m))
                                                            ros_msg.possible_goal
                                                            ++ (map (λ m. goal (original_goal m))
                                                            ros_msg.goal
                                                            ++ (map
                                                            (λ m. invalid_goal (original_goal m))
                                                            ros_msg.invalid_goal
                                                            ++ (map
                                                            (λ m. attacker_double_touched_ball (
                                                            original_attacker_double_touched_ball
                                                            m))
                                                            ros_msg.attacker_double_touched_ball
                                                            ++ (map
                                                            (λ m.
                                                            placement_succeeded
                                                            (original_placement_succeeded m))
                                                            ros_msg.placement_succeeded
                                                            ++ (map
                                                            (λ m.
                                                            penalty_kick_failed
                                                            (original_penalty_kick_failed m))
                                                            ros_msg.penalty_kick_failed
                                                            ++ (map
                                                            (λ m.
                                                            no_progress_in_game
                                                            (original_no_progress_in_game m))
                                                            ros_msg.no_progress_in_game
                                                            ++ (map
                                                            (λ m.
                                                            placement_failed
                                                            (original_placement_failed m))
                                                            ros_msg.placement_failed
                                                            ++ (map
                                                            (λ m.
                                                            multiple_cards
                                                            (original_multiple_cards m))
                                                            ros_msg.multiple_cards
                                                            ++ (map
                                                            (λ m.
                                                            multiple_fouls
                                                            (original_multiple_fouls m))
                                                            ros_msg.multiple_fouls
                                                            ++ (map
                                                            (λ m.
                                                            bot_substitution
                                                            (original_bot_substitution m))
                                                            ros_msg.bot_substitution
                                                            ++ (map
                                                            (λ m.
                                                            excessive_bot_substitution
                                                            (original_excessive_bot_substitution m))
                                                            ros_msg.excessive_bot_substitution
                                                            ++ (map
                                                            (λ m.
                                                            too_many_robots
                                                            (original_too_many_robots m))
                                                            ros_msg.too_many_robots
                                                            ++ (map
                                                            (λ m.
                                                            challenge_flag
                                                            (original_challenge_flag m))
                                                            ros_msg.challenge_flag
                                                            ++ (map
                                                            (λ m.
                                                            challenge_flag_handled
                                                            (original_challenge_flag_handled m))
                                                            ros_msg.challenge_flag_handled
                                                            ++ (map
                                                            (λ m.
                                                            emergency_stop
                                                            (original_emergency_stop m))
                                                            ros_msg.emergency_stop
                                                            ++ (map
                                                            (λ m.
                                                            unsporting_behavior_minor
                                                            (original_unsporting_behavior_minor m))
                                                            ros_msg.unsporting_behavior_minor
                                                            ++ (map
                                                            (λ m.
                                                            unsporting_behavior_major
                                                            (original_unsporting_behavior_major m))
                                                            ros_msg.unsporting_behavior_major
                                                            ++ (map
                                                            (λ m. prepared (original_prepared m))
                                                            ros_msg.prepared
                                                            ++ (map
                                                            (λ m.
                                                            indirect_goal
                                                            (original_indirect_goal m))
                                                            ros_msg.indirect_goal
                                                            ++ (map
                                                            (λ m.
                                                            chipped_goal (original_chipped_goal m))
                                                            ros_msg.chipped_goal
                                                            ++ (map
                                                            (λ m.
                                                            kick_timeout (original_kick_timeout m))
                                                            ros_msg.kick_timeout
                                                            ++ (map
                                                            (λ m.
                                                            attacker_touched_opponent_in_defense_area
                                                            (original_attacker_touched_opponent_in_defense_area
                                                            m))
                                                            ros_msg.attacker_touched_opponent_in_defense_area
                                                            ++ (map
                                                            (λ m.
                                                            attacker_touched_opponent_in_defense_area_skipped
                                                            (original_attacker_touched_opponent_in_defense_area
                                                            m))
                                                            ros_msg.attacker_touched_opponent_in_defense_area_skipped
                                                            ++ (map
                                                            (λ m.
                                                            bot_crash_unique_skipped
                                                            (original_bot_crash_unique m))
                                                            ros_msg.bot_crash_unique_skipped
                                                            ++ (map
                                                            (λ m.
                                                            bot_pushed_bot_skipped
                                                            (original_bot_pushed_bot m))
                                                            ros_msg.bot_pushed_bot_skipped
                                                            ++ (map
                                                            (λ m.
                                                            defender_in_defense_area_partially (
                                                            original_defender_in_defense_area_partially
                                                            m))
                                                            ros_msg.defender_in_defense_area_partially
                                                            ++ (map
                                                            (λ m. multiple_placement_failures (
                                                            original_multiple_placement_failures m))
                                                            ros_msg.multiple_placement_failures
                                                            ++ ([]))))))))))))))))))))))))))))))))))
                                                            )))))))))))))

-- ===== src/Conversion/GameEvents/Original/Recovered.antt =====
-- What of a game event can be read back from its ROS message.
use ssl_ros_bridge.Prelude.{Option, none, some, ◌≡◌, refl, to_list}
use ssl_ros_bridge.Conversion.Fields.{or_default}
use ssl_ros_bridge.Conversion.Common.Original.{original_team-team_from_proto}
use ssl_ros_bridge.Conversion.Enums.{unknown_game_event_type}
use ssl_ros_bridge.Conversion.Enums.GameEventTypes.{game_event_type_called-game_event_type_number}
use ssl_ros_bridge.Conversion.Events.Goals.Original.{
  original_ball_left_field-ball_left_field_from_proto,
  original_aimless_kick-aimless_kick_from_proto, original_goal-goal_from_proto,
  original_penalty_kick_failed-penalty_kick_failed_from_proto,
  original_no_progress_in_game-no_progress_in_game_from_proto,
}
use ssl_ros_bridge.Conversion.Events.Areas.Original.{
  original_attacker_double_touched_ball-attacker_double_touched_ball_from_proto,
  original_attacker_too_close_to_defense_area-attacker_too_close_to_defense_area_from_proto,
  original_attacker_touched_ball_in_defense_area-attacker_touched_ball_in_defense_area_from_proto,
  original_defender_in_defense_area-defender_in_defense_area_from_proto,
  original_defender_too_close_to_kick_point-defender_too_close_to_kick_point_from_proto,
  original_boundary_crossing-boundary_crossing_from_proto,
  original_keeper_held_ball-keeper_held_ball_from_proto,
}
use ssl_ros_bridge.Conversion.Events.Robots.Original.{
  original_bot_crash_drawn-bot_crash_drawn_from_proto,
  original_bot_crash_unique-bot_crash_unique_from_proto,
  original_bot_pushed_bot-bot_pushed_bot_from_proto,
  original_bot_tipped_over-bot_tipped_over_from_proto,
  original_bot_dropped_parts-bot_dropped_parts_from_proto,
  original_bot_held_ball_deliberately-bot_held_ball_deliberately_from_proto,
  original_bot_dribbled_ball_too_far-bot_dribbled_ball_too_far_from_proto,
  original_bot_kicked_ball_too_fast-bot_kicked_ball_too_fast_from_proto,
  original_bot_too_fast_in_stop-bot_too_fast_in_stop_from_proto,
  original_bot_interfered_placement-bot_interfered_placement_from_proto,
}
use ssl_ros_bridge.Conversion.Events.Sanctions.Original.{
  original_multiple_cards-multiple_cards_from_proto,
  original_unsporting_behavior_minor-unsporting_behavior_minor_from_proto,
  original_unsporting_behavior_major-unsporting_behavior_major_from_proto,
  original_bot_substitution-bot_substitution_from_proto,
  original_excessive_bot_substitution-excessive_bot_substitution_from_proto,
  original_challenge_flag-challenge_flag_from_proto,
  original_challenge_flag_handled-challenge_flag_handled_from_proto,
  original_emergency_stop-emergency_stop_from_proto,
  original_too_many_robots-too_many_robots_from_proto,
  original_placement_failed-placement_failed_from_proto,
  original_placement_succeeded-placement_succeeded_from_proto,
}
use ssl_ros_bridge.Conversion.GameEvents.{
  GameEventHeader, game_event, Event, no_event, MultipleFouls, fouls, nil,
  ball_left_field_touch_line, ball_left_field_goal_line, aimless_kick,
  attacker_too_close_to_defense_area, defender_in_defense_area, boundary_crossing, keeper_held_ball,
  bot_dribbled_ball_too_far, bot_pushed_bot, bot_held_ball_deliberately, bot_tipped_over,
  bot_dropped_parts, attacker_touched_ball_in_defense_area, bot_kicked_ball_too_fast,
  bot_crash_unique, bot_crash_drawn, defender_too_close_to_kick_point, bot_too_fast_in_stop,
  bot_interfered_placement, possible_goal, goal, invalid_goal, attacker_double_touched_ball,
  placement_succeeded, penalty_kick_failed, no_progress_in_game, placement_failed, multiple_cards,
  multiple_fouls, bot_substitution, excessive_bot_substitution, too_many_robots, challenge_flag,
  challenge_flag_handled, emergency_stop, unsporting_behavior_minor, unsporting_behavior_major,
  prepared, indirect_goal, chipped_goal, kick_timeout, attacker_touched_opponent_in_defense_area,
  attacker_touched_opponent_in_defense_area_skipped, bot_crash_unique_skipped,
  bot_pushed_bot_skipped, defender_in_defense_area_partially, multiple_placement_failures,
}
use ssl_ros_bridge.Conversion.GameEvents.Message.{game_event_from_proto, multiple_fouls_from_proto}
use ssl_ros_bridge.Conversion.GameEvents.Dispatch.{dispatch}
use ssl_ros_bridge.Conversion.GameEvents.Dispatch.Agrees.{game_event_from_proto-dispatch}
use ssl_ros_bridge.Conversion.GameEvents.Original.{
  original_multiple_fouls, original_header, original_events,
}

-- The events that caused multiple fouls are lost.
unfoldable pub without_causes : MultipleFouls → MultipleFouls
without_causes (fouls by_team caused) = fouls by_team nil

-- What is left of an event: nothing of ten deprecated cases; all of the others but the reason of a
-- failed penalty kick, the nearest own robot's distance of a failed placement and the causes of
-- multiple fouls.
unfoldable pub kept : Event → Option Event
kept no_event = none
kept (prepared m) = none
kept (indirect_goal m) = none
kept (chipped_goal m) = none
kept (kick_timeout m) = none
kept (attacker_touched_opponent_in_defense_area m) = none
kept (attacker_touched_opponent_in_defense_area_skipped m) = none
kept (bot_crash_unique_skipped m) = none
kept (bot_pushed_bot_skipped m) = none
kept (defender_in_defense_area_partially m) = none
kept (multiple_placement_failures m) = none
kept (ball_left_field_touch_line m) = some (ball_left_field_touch_line m)
kept (ball_left_field_goal_line m) = some (ball_left_field_goal_line m)
kept (aimless_kick m) = some (aimless_kick m)
kept (attacker_too_close_to_defense_area m) = some (attacker_too_close_to_defense_area m)
kept (defender_in_defense_area m) = some (defender_in_defense_area m)
kept (boundary_crossing m) = some (boundary_crossing m)
kept (keeper_held_ball m) = some (keeper_held_ball m)
kept (bot_dribbled_ball_too_far m) = some (bot_dribbled_ball_too_far m)
kept (bot_pushed_bot m) = some (bot_pushed_bot m)
kept (bot_held_ball_deliberately m) = some (bot_held_ball_deliberately m)
kept (bot_tipped_over m) = some (bot_tipped_over m)
kept (bot_dropped_parts m) = some (bot_dropped_parts m)
kept (attacker_touched_ball_in_defense_area m) = some (attacker_touched_ball_in_defense_area m)
kept (bot_kicked_ball_too_fast m) = some (bot_kicked_ball_too_fast m)
kept (bot_crash_unique m) = some (bot_crash_unique m)
kept (bot_crash_drawn m) = some (bot_crash_drawn m)
kept (defender_too_close_to_kick_point m) = some (defender_too_close_to_kick_point m)
kept (bot_too_fast_in_stop m) = some (bot_too_fast_in_stop m)
kept (bot_interfered_placement m) = some (bot_interfered_placement m)
kept (possible_goal m) = some (possible_goal m)
kept (goal m) = some (goal m)
kept (invalid_goal m) = some (invalid_goal m)
kept (attacker_double_touched_ball m) = some (attacker_double_touched_ball m)
kept (placement_succeeded m) = some (placement_succeeded m)
kept (penalty_kick_failed m) = some (penalty_kick_failed (record m { reason = none }))
kept (no_progress_in_game m) = some (no_progress_in_game m)
kept (placement_failed m) = some (placement_failed (record m { nearest_own_bot_distance = none }))
kept (multiple_cards m) = some (multiple_cards m)
kept (multiple_fouls m) = some (multiple_fouls (without_causes m))
kept (bot_substitution m) = some (bot_substitution m)
kept (excessive_bot_substitution m) = some (excessive_bot_substitution m)
kept (too_many_robots m) = some (too_many_robots m)
kept (challenge_flag m) = some (challenge_flag m)
kept (challenge_flag_handled m) = some (challenge_flag_handled m)
kept (emergency_stop m) = some (emergency_stop m)
kept (unsporting_behavior_minor m) = some (unsporting_behavior_minor m)
kept (unsporting_behavior_major m) = some (unsporting_behavior_major m)

original_multiple_fouls-multiple_fouls_from_proto :
    (m : MultipleFouls) → original_multiple_fouls (multiple_fouls_from_proto m) ≡ without_causes m
unfolding original_multiple_fouls multiple_fouls_from_proto without_causes
original_multiple_fouls-multiple_fouls_from_proto (fouls by_team caused) =
    rw (original_team-team_from_proto by_team)

original_events-dispatch :
    (h : GameEventHeader) (e : Event) → original_events (dispatch h e) ≡ to_list (kept e)
unfolding original_events dispatch kept
original_events-dispatch h no_event = refl
original_events-dispatch h (prepared m) = refl
original_events-dispatch h (indirect_goal m) = refl
original_events-dispatch h (chipped_goal m) = refl
original_events-dispatch h (kick_timeout m) = refl
original_events-dispatch h (attacker_touched_opponent_in_defense_area m) = refl
original_events-dispatch h (attacker_touched_opponent_in_defense_area_skipped m) = refl
original_events-dispatch h (bot_crash_unique_skipped m) = refl
original_events-dispatch h (bot_pushed_bot_skipped m) = refl
original_events-dispatch h (defender_in_defense_area_partially m) = refl
original_events-dispatch h (multiple_placement_failures m) = refl
original_events-dispatch h (ball_left_field_touch_line m) =
    rw (original_ball_left_field-ball_left_field_from_proto m)
original_events-dispatch h (ball_left_field_goal_line m) =
    rw (original_ball_left_field-ball_left_field_from_proto m)
original_events-dispatch h (aimless_kick m) = rw (original_aimless_kick-aimless_kick_from_proto m)
original_events-dispatch h (attacker_too_close_to_defense_area m) =
    rw (original_attacker_too_close_to_defense_area-attacker_too_close_to_defense_area_from_proto m)
original_events-dispatch h (defender_in_defense_area m) =
    rw (original_defender_in_defense_area-defender_in_defense_area_from_proto m)
original_events-dispatch h (boundary_crossing m) =
    rw (original_boundary_crossing-boundary_crossing_from_proto m)
original_events-dispatch h (keeper_held_ball m) =
    rw (original_keeper_held_ball-keeper_held_ball_from_proto m)
original_events-dispatch h (bot_dribbled_ball_too_far m) =
    rw (original_bot_dribbled_ball_too_far-bot_dribbled_ball_too_far_from_proto m)
original_events-dispatch h (bot_pushed_bot m) =
    rw (original_bot_pushed_bot-bot_pushed_bot_from_proto m)
original_events-dispatch h (bot_held_ball_deliberately m) =
    rw (original_bot_held_ball_deliberately-bot_held_ball_deliberately_from_proto m)
original_events-dispatch h (bot_tipped_over m) =
    rw (original_bot_tipped_over-bot_tipped_over_from_proto m)
original_events-dispatch h (bot_dropped_parts m) =
    rw (original_bot_dropped_parts-bot_dropped_parts_from_proto m)
original_events-dispatch h (attacker_touched_ball_in_defense_area m) = rw (
    original_attacker_touched_ball_in_defense_area-attacker_touched_ball_in_defense_area_from_proto
      m)
original_events-dispatch h (bot_kicked_ball_too_fast m) =
    rw (original_bot_kicked_ball_too_fast-bot_kicked_ball_too_fast_from_proto m)
original_events-dispatch h (bot_crash_unique m) =
    rw (original_bot_crash_unique-bot_crash_unique_from_proto m)
original_events-dispatch h (bot_crash_drawn m) =
    rw (original_bot_crash_drawn-bot_crash_drawn_from_proto m)
original_events-dispatch h (defender_too_close_to_kick_point m) =
    rw (original_defender_too_close_to_kick_point-defender_too_close_to_kick_point_from_proto m)
original_events-dispatch h (bot_too_fast_in_stop m) =
    rw (original_bot_too_fast_in_stop-bot_too_fast_in_stop_from_proto m)
original_events-dispatch h (bot_interfered_placement m) =
    rw (original_bot_interfered_placement-bot_interfered_placement_from_proto m)
original_events-dispatch h (possible_goal m) = rw (original_goal-goal_from_proto m)
original_events-dispatch h (goal m) = rw (original_goal-goal_from_proto m)
original_events-dispatch h (invalid_goal m) = rw (original_goal-goal_from_proto m)
original_events-dispatch h (attacker_double_touched_ball m) =
    rw (original_attacker_double_touched_ball-attacker_double_touched_ball_from_proto m)
original_events-dispatch h (placement_succeeded m) =
    rw (original_placement_succeeded-placement_succeeded_from_proto m)
original_events-dispatch h (penalty_kick_failed m) =
    rw (original_penalty_kick_failed-penalty_kick_failed_from_proto m)
original_events-dispatch h (no_progress_in_game m) =
    rw (original_no_progress_in_game-no_progress_in_game_from_proto m)
original_events-dispatch h (placement_failed m) =
    rw (original_placement_failed-placement_failed_from_proto m)
original_events-dispatch h (multiple_cards m) =
    rw (original_multiple_cards-multiple_cards_from_proto m)
original_events-dispatch h (multiple_fouls m) =
    rw (original_multiple_fouls-multiple_fouls_from_proto m)
original_events-dispatch h (bot_substitution m) =
    rw (original_bot_substitution-bot_substitution_from_proto m)
original_events-dispatch h (excessive_bot_substitution m) =
    rw (original_excessive_bot_substitution-excessive_bot_substitution_from_proto m)
original_events-dispatch h (too_many_robots m) =
    rw (original_too_many_robots-too_many_robots_from_proto m)
original_events-dispatch h (challenge_flag m) =
    rw (original_challenge_flag-challenge_flag_from_proto m)
original_events-dispatch h (challenge_flag_handled m) =
    rw (original_challenge_flag_handled-challenge_flag_handled_from_proto m)
original_events-dispatch h (emergency_stop m) =
    rw (original_emergency_stop-emergency_stop_from_proto m)
original_events-dispatch h (unsporting_behavior_minor m) =
    rw (original_unsporting_behavior_minor-unsporting_behavior_minor_from_proto m)
original_events-dispatch h (unsporting_behavior_major m) =
    rw (original_unsporting_behavior_major-unsporting_behavior_major_from_proto m)

-- The same header, with the defaults for what is not set.
abbrev pub with_defaults : GameEventHeader → GameEventHeader
with_defaults h = record {
  id = some (or_default "" h.id);
  type = some (or_default unknown_game_event_type h.type);
  origin = h.origin;
  created_timestamp = some (or_default 0 h.created_timestamp);
}

-- From the ROS message of a game event its header can be read back, with the defaults for what was
-- not set, and of its event exactly what is kept: no event for no case and for the ten deprecated
-- ones, else the one event, but for the three fields that the conversion drops.
pub game_event_recovered :
    (h : GameEventHeader) (e : Event)
    → (original_header (game_event_from_proto (game_event h e)) ≡ with_defaults h)
      × (original_events (game_event_from_proto (game_event h e)) ≡ to_list (kept e))
unfolding original_header game_event_from_proto
game_event_recovered h e = (
  rw (game_event_type_called-game_event_type_number (or_default unknown_game_event_type h.type)),
  rw (game_event_from_proto-dispatch h e) (original_events-dispatch h e),
)

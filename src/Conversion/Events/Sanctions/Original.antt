-- ===== src/Conversion/Events/Sanctions/Original.antt =====
-- The events of Sanctions.antt read back.
use ssl_ros_bridge.Prelude.{none, ◌≡◌, map}
use ssl_ros_bridge.Conversion.Fields.{first}
use ssl_ros_bridge.Conversion.Common.Original.{original_vector2, original_team, originals}
use ssl_ros_bridge.Conversion.Events.Sanctions.{
  MultipleCards, MultipleCardsMsg, multiple_cards_from_proto, MultiplePlacementFailures,
  MultiplePlacementFailuresMsg, multiple_placement_failures_from_proto, UnsportingBehaviorMinor,
  UnsportingBehaviorMinorMsg, unsporting_behavior_minor_from_proto, UnsportingBehaviorMajor,
  UnsportingBehaviorMajorMsg, unsporting_behavior_major_from_proto, BotSubstitution,
  BotSubstitutionMsg, bot_substitution_from_proto, ExcessiveBotSubstitution,
  ExcessiveBotSubstitutionMsg, excessive_bot_substitution_from_proto, ChallengeFlag,
  ChallengeFlagMsg, challenge_flag_from_proto, ChallengeFlagHandled, ChallengeFlagHandledMsg,
  challenge_flag_handled_from_proto, EmergencyStop, EmergencyStopMsg, emergency_stop_from_proto,
  TooManyRobots, TooManyRobotsMsg, too_many_robots_from_proto, PlacementFailed, PlacementFailedMsg,
  placement_failed_from_proto, PlacementSucceeded, PlacementSucceededMsg,
  placement_succeeded_from_proto,
}

unfoldable pub original_multiple_cards : MultipleCardsMsg → MultipleCards
original_multiple_cards ros_msg = record { by_team = original_team ros_msg.by_team }

pub original_multiple_cards-multiple_cards_from_proto :
    (m : MultipleCards) → original_multiple_cards (multiple_cards_from_proto m) ≡ m
unfolding original_multiple_cards multiple_cards_from_proto
original_multiple_cards-multiple_cards_from_proto m = simp originals

unfoldable pub original_multiple_placement_failures :
    MultiplePlacementFailuresMsg → MultiplePlacementFailures
original_multiple_placement_failures ros_msg = record { by_team = original_team ros_msg.by_team }

pub original_multiple_placement_failures-multiple_placement_failures_from_proto :
    (m : MultiplePlacementFailures)
    → original_multiple_placement_failures (multiple_placement_failures_from_proto m) ≡ m
unfolding original_multiple_placement_failures multiple_placement_failures_from_proto
original_multiple_placement_failures-multiple_placement_failures_from_proto m = simp originals

unfoldable pub original_unsporting_behavior_minor :
    UnsportingBehaviorMinorMsg → UnsportingBehaviorMinor
original_unsporting_behavior_minor ros_msg = record {
  by_team = original_team ros_msg.by_team;
  reason = ros_msg.reason;
}

pub original_unsporting_behavior_minor-unsporting_behavior_minor_from_proto :
    (m : UnsportingBehaviorMinor)
    → original_unsporting_behavior_minor (unsporting_behavior_minor_from_proto m) ≡ m
unfolding original_unsporting_behavior_minor unsporting_behavior_minor_from_proto
original_unsporting_behavior_minor-unsporting_behavior_minor_from_proto m = simp originals

unfoldable pub original_unsporting_behavior_major :
    UnsportingBehaviorMajorMsg → UnsportingBehaviorMajor
original_unsporting_behavior_major ros_msg = record {
  by_team = original_team ros_msg.by_team;
  reason = ros_msg.reason;
}

pub original_unsporting_behavior_major-unsporting_behavior_major_from_proto :
    (m : UnsportingBehaviorMajor)
    → original_unsporting_behavior_major (unsporting_behavior_major_from_proto m) ≡ m
unfolding original_unsporting_behavior_major unsporting_behavior_major_from_proto
original_unsporting_behavior_major-unsporting_behavior_major_from_proto m = simp originals

unfoldable pub original_bot_substitution : BotSubstitutionMsg → BotSubstitution
original_bot_substitution ros_msg = record { by_team = original_team ros_msg.by_team }

pub original_bot_substitution-bot_substitution_from_proto :
    (m : BotSubstitution) → original_bot_substitution (bot_substitution_from_proto m) ≡ m
unfolding original_bot_substitution bot_substitution_from_proto
original_bot_substitution-bot_substitution_from_proto m = simp originals

unfoldable pub original_excessive_bot_substitution :
    ExcessiveBotSubstitutionMsg → ExcessiveBotSubstitution
original_excessive_bot_substitution ros_msg = record { by_team = original_team ros_msg.by_team }

pub original_excessive_bot_substitution-excessive_bot_substitution_from_proto :
    (m : ExcessiveBotSubstitution)
    → original_excessive_bot_substitution (excessive_bot_substitution_from_proto m) ≡ m
unfolding original_excessive_bot_substitution excessive_bot_substitution_from_proto
original_excessive_bot_substitution-excessive_bot_substitution_from_proto m = simp originals

unfoldable pub original_challenge_flag : ChallengeFlagMsg → ChallengeFlag
original_challenge_flag ros_msg = record { by_team = original_team ros_msg.by_team }

pub original_challenge_flag-challenge_flag_from_proto :
    (m : ChallengeFlag) → original_challenge_flag (challenge_flag_from_proto m) ≡ m
unfolding original_challenge_flag challenge_flag_from_proto
original_challenge_flag-challenge_flag_from_proto m = simp originals

unfoldable pub original_challenge_flag_handled : ChallengeFlagHandledMsg → ChallengeFlagHandled
original_challenge_flag_handled ros_msg = record {
  by_team = original_team ros_msg.by_team;
  accepted = ros_msg.accepted;
}

pub original_challenge_flag_handled-challenge_flag_handled_from_proto :
    (m : ChallengeFlagHandled)
    → original_challenge_flag_handled (challenge_flag_handled_from_proto m) ≡ m
unfolding original_challenge_flag_handled challenge_flag_handled_from_proto
original_challenge_flag_handled-challenge_flag_handled_from_proto m = simp originals

unfoldable pub original_emergency_stop : EmergencyStopMsg → EmergencyStop
original_emergency_stop ros_msg = record { by_team = original_team ros_msg.by_team }

pub original_emergency_stop-emergency_stop_from_proto :
    (m : EmergencyStop) → original_emergency_stop (emergency_stop_from_proto m) ≡ m
unfolding original_emergency_stop emergency_stop_from_proto
original_emergency_stop-emergency_stop_from_proto m = simp originals

unfoldable pub original_too_many_robots : TooManyRobotsMsg → TooManyRobots
original_too_many_robots ros_msg = record {
  by_team = original_team ros_msg.by_team;
  num_robots_allowed = first ros_msg.num_robots_allowed;
  num_robots_on_field = first ros_msg.num_robots_on_field;
  ball_location = first (map original_vector2 ros_msg.ball_location);
}

pub original_too_many_robots-too_many_robots_from_proto :
    (m : TooManyRobots) → original_too_many_robots (too_many_robots_from_proto m) ≡ m
unfolding original_too_many_robots too_many_robots_from_proto
original_too_many_robots-too_many_robots_from_proto m = simp originals

unfoldable pub original_placement_failed : PlacementFailedMsg → PlacementFailed
original_placement_failed ros_msg = record {
  by_team = original_team ros_msg.by_team;
  remaining_distance = first ros_msg.remaining_distance;
  nearest_own_bot_distance = first ros_msg.nearest_own_bot_distance;
}

pub original_placement_failed-placement_failed_from_proto :
    (m : PlacementFailed)
    → original_placement_failed (placement_failed_from_proto m)
      ≡ record m { nearest_own_bot_distance = none }
unfolding original_placement_failed placement_failed_from_proto
original_placement_failed-placement_failed_from_proto m = simp originals

unfoldable pub original_placement_succeeded : PlacementSucceededMsg → PlacementSucceeded
original_placement_succeeded ros_msg = record {
  by_team = original_team ros_msg.by_team;
  time_taken = first ros_msg.time_taken;
  precision = first ros_msg.precision;
  distance = first ros_msg.distance;
}

pub original_placement_succeeded-placement_succeeded_from_proto :
    (m : PlacementSucceeded) → original_placement_succeeded (placement_succeeded_from_proto m) ≡ m
unfolding original_placement_succeeded placement_succeeded_from_proto
original_placement_succeeded-placement_succeeded_from_proto m = simp originals

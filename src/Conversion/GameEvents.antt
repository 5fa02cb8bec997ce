-- ===== src/Conversion/GameEvents.antt =====
-- GameEvent of ssl_gc_game_event.proto. Its `oneof` is one of the cases of `Event`, or none. Multiple
-- fouls hold the events that caused them.
pub mod Cases
pub mod Message
pub mod Dispatch
pub mod Original
use ssl_ros_bridge.Prelude.{ℕ, String, Option, List}
use ssl_ros_bridge.TeamClient.Messages.{Team}
use ssl_ros_bridge.Conversion.Enums.{GameEventType}
use ssl_ros_bridge.Conversion.Events.Goals.{
  BallLeftField, AimlessKick, Goal, IndirectGoal, ChippedGoal, PenaltyKickFailed, KickTimeout,
  NoProgressInGame, Prepared,
}
use ssl_ros_bridge.Conversion.Events.Areas.{
  AttackerDoubleTouchedBall, AttackerTooCloseToDefenseArea, AttackerTouchedBallInDefenseArea,
  AttackerTouchedOpponentInDefenseArea, DefenderInDefenseArea, DefenderInDefenseAreaPartially,
  DefenderTooCloseToKickPoint, BoundaryCrossing, KeeperHeldBall,
}
use ssl_ros_bridge.Conversion.Events.Robots.{
  BotCrashDrawn, BotCrashUnique, BotPushedBot, BotTippedOver, BotDroppedParts,
  BotHeldBallDeliberately, BotDribbledBallTooFar, BotKickedBallTooFast, BotTooFastInStop,
  BotInterferedPlacement,
}
use ssl_ros_bridge.Conversion.Events.Sanctions.{
  MultipleCards, MultiplePlacementFailures, UnsportingBehaviorMinor, UnsportingBehaviorMajor,
  BotSubstitution, ExcessiveBotSubstitution, ChallengeFlag, ChallengeFlagHandled, EmergencyStop,
  TooManyRobots, PlacementFailed, PlacementSucceeded,
}

pub record GameEventHeader : Type 0 where
  pub id : Option String
  pub type : Option GameEventType
  pub origin : List String
  pub created_timestamp : Option ℕ

mutual
  pub data GameEvent : Type 0 where
    game_event : GameEventHeader → Event → GameEvent

  pub data MultipleFouls : Type 0 where
    -- by_team and caused_game_events
    fouls : Team → GameEventList → MultipleFouls

  pub data GameEventList : Type 0 where
    nil : GameEventList
    cons : GameEvent → GameEventList → GameEventList

  pub data Event : Type 0 where
    no_event : Event
    ball_left_field_touch_line : BallLeftField → Event
    ball_left_field_goal_line : BallLeftField → Event
    aimless_kick : AimlessKick → Event
    attacker_too_close_to_defense_area : AttackerTooCloseToDefenseArea → Event
    defender_in_defense_area : DefenderInDefenseArea → Event
    boundary_crossing : BoundaryCrossing → Event
    keeper_held_ball : KeeperHeldBall → Event
    bot_dribbled_ball_too_far : BotDribbledBallTooFar → Event
    bot_pushed_bot : BotPushedBot → Event
    bot_held_ball_deliberately : BotHeldBallDeliberately → Event
    bot_tipped_over : BotTippedOver → Event
    bot_dropped_parts : BotDroppedParts → Event
    attacker_touched_ball_in_defense_area : AttackerTouchedBallInDefenseArea → Event
    bot_kicked_ball_too_fast : BotKickedBallTooFast → Event
    bot_crash_unique : BotCrashUnique → Event
    bot_crash_drawn : BotCrashDrawn → Event
    defender_too_close_to_kick_point : DefenderTooCloseToKickPoint → Event
    bot_too_fast_in_stop : BotTooFastInStop → Event
    bot_interfered_placement : BotInterferedPlacement → Event
    possible_goal : Goal → Event
    goal : Goal → Event
    invalid_goal : Goal → Event
    attacker_double_touched_ball : AttackerDoubleTouchedBall → Event
    placement_succeeded : PlacementSucceeded → Event
    penalty_kick_failed : PenaltyKickFailed → Event
    no_progress_in_game : NoProgressInGame → Event
    placement_failed : PlacementFailed → Event
    multiple_cards : MultipleCards → Event
    multiple_fouls : MultipleFouls → Event
    bot_substitution : BotSubstitution → Event
    excessive_bot_substitution : ExcessiveBotSubstitution → Event
    too_many_robots : TooManyRobots → Event
    challenge_flag : ChallengeFlag → Event
    challenge_flag_handled : ChallengeFlagHandled → Event
    emergency_stop : EmergencyStop → Event
    unsporting_behavior_minor : UnsportingBehaviorMinor → Event
    unsporting_behavior_major : UnsportingBehaviorMajor → Event
    prepared : Prepared → Event
    indirect_goal : IndirectGoal → Event
    chipped_goal : ChippedGoal → Event
    kick_timeout : KickTimeout → Event
    attacker_touched_opponent_in_defense_area : AttackerTouchedOpponentInDefenseArea → Event
    attacker_touched_opponent_in_defense_area_skipped : AttackerTouchedOpponentInDefenseArea → Event
    bot_crash_unique_skipped : BotCrashUnique → Event
    bot_pushed_bot_skipped : BotPushedBot → Event
    defender_in_defense_area_partially : DefenderInDefenseAreaPartially → Event
    multiple_placement_failures : MultiplePlacementFailures → Event

-- ===== src/Conversion/Events/Areas/Original.antt =====
-- The events of Areas.antt read back.
use ssl_ros_bridge.Prelude.{◌≡◌, map}
use ssl_ros_bridge.Conversion.Fields.{first}
use ssl_ros_bridge.Conversion.Common.Original.{original_vector2, original_team, originals}
use ssl_ros_bridge.Conversion.Events.Areas.{
  AttackerDoubleTouchedBall, AttackerDoubleTouchedBallMsg, attacker_double_touched_ball_from_proto,
  AttackerTooCloseToDefenseArea, AttackerTooCloseToDefenseAreaMsg,
  attacker_too_close_to_defense_area_from_proto, AttackerTouchedBallInDefenseArea,
  AttackerTouchedBallInDefenseAreaMsg, attacker_touched_ball_in_defense_area_from_proto,
  AttackerTouchedOpponentInDefenseArea, AttackerTouchedOpponentInDefenseAreaMsg,
  attacker_touched_opponent_in_defense_area_from_proto, DefenderInDefenseArea,
  DefenderInDefenseAreaMsg, defender_in_defense_area_from_proto, DefenderInDefenseAreaPartially,
  DefenderInDefenseAreaPartiallyMsg, defender_in_defense_area_partially_from_proto,
  DefenderTooCloseToKickPoint, DefenderTooCloseToKickPointMsg,
  defender_too_close_to_kick_point_from_proto, BoundaryCrossing, BoundaryCrossingMsg,
  boundary_crossing_from_proto, KeeperHeldBall, KeeperHeldBallMsg, keeper_held_ball_from_proto,
}

unfoldable pub original_attacker_double_touched_ball :
    AttackerDoubleTouchedBallMsg → AttackerDoubleTouchedBall
original_attacker_double_touched_ball ros_msg = record {
  by_team = original_team ros_msg.by_team;
  by_bot = first ros_msg.by_bot;
  location = first (map original_vector2 ros_msg.location);
}

pub original_attacker_double_touched_ball-attacker_double_touched_ball_from_proto :
    (m : AttackerDoubleTouchedBall)
    → original_attacker_double_touched_ball (attacker_double_touched_ball_from_proto m) ≡ m
unfolding original_attacker_double_touched_ball attacker_double_touched_ball_from_proto
original_attacker_double_touched_ball-attacker_double_touched_ball_from_proto m = simp originals

unfoldable pub original_attacker_too_close_to_defense_area :
    AttackerTooCloseToDefenseAreaMsg → AttackerTooCloseToDefenseArea
original_attacker_too_close_to_defense_area ros_msg = record {
  by_team = original_team ros_msg.by_team;
  by_bot = first ros_msg.by_bot;
  location = first (map original_vector2 ros_msg.location);
  distance = first ros_msg.distance;
  ball_location = first (map original_vector2 ros_msg.ball_location);
}

pub original_attacker_too_close_to_defense_area-attacker_too_close_to_defense_area_from_proto :
    (m : AttackerTooCloseToDefenseArea)
    → original_attacker_too_close_to_defense_area (attacker_too_close_to_defense_area_from_proto m)
      ≡ m
unfolding original_attacker_too_close_to_defense_area attacker_too_close_to_defense_area_from_proto
original_attacker_too_close_to_defense_area-attacker_too_close_to_defense_area_from_proto m =
    simp originals

unfoldable pub original_attacker_touched_ball_in_defense_area :
    AttackerTouchedBallInDefenseAreaMsg → AttackerTouchedBallInDefenseArea
original_attacker_touched_ball_in_defense_area ros_msg = record {
  by_team = original_team ros_msg.by_team;
  by_bot = first ros_msg.by_bot;
  location = first (map original_vector2 ros_msg.location);
  distance = first ros_msg.distance;
}

pub original_attacker_touched_ball_in_defense_area-attacker_touched_ball_in_defense_area_from_proto :
    (m : AttackerTouchedBallInDefenseArea)
    → original_attacker_touched_ball_in_defense_area
        (attacker_touched_ball_in_defense_area_from_proto m)
      ≡ m
unfolding original_attacker_touched_ball_in_defense_area
    attacker_touched_ball_in_defense_area_from_proto
original_attacker_touched_ball_in_defense_area-attacker_touched_ball_in_defense_area_from_proto m =
    simp originals

unfoldable pub original_attacker_touched_opponent_in_defense_area :
    AttackerTouchedOpponentInDefenseAreaMsg → AttackerTouchedOpponentInDefenseArea
original_attacker_touched_opponent_in_defense_area ros_msg = record {
  by_team = original_team ros_msg.by_team;
  by_bot = first ros_msg.by_bot;
  victim = first ros_msg.victim;
  location = first (map original_vector2 ros_msg.location);
}

pub original_attacker_touched_opponent_in_defense_area-attacker_touched_opponent_in_defense_area_from_proto :
    (m : AttackerTouchedOpponentInDefenseArea)
    → original_attacker_touched_opponent_in_defense_area
        (attacker_touched_opponent_in_defense_area_from_proto m)
      ≡ m
unfolding original_attacker_touched_opponent_in_defense_area
    attacker_touched_opponent_in_defense_area_from_proto
original_attacker_touched_opponent_in_defense_area-attacker_touched_opponent_in_defense_area_from_proto
      m =
    simp originals

unfoldable pub original_defender_in_defense_area : DefenderInDefenseAreaMsg → DefenderInDefenseArea
original_defender_in_defense_area ros_msg = record {
  by_team = original_team ros_msg.by_team;
  by_bot = first ros_msg.by_bot;
  location = first (map original_vector2 ros_msg.location);
  distance = first ros_msg.distance;
}

pub original_defender_in_defense_area-defender_in_defense_area_from_proto :
    (m : DefenderInDefenseArea)
    → original_defender_in_defense_area (defender_in_defense_area_from_proto m) ≡ m
unfolding original_defender_in_defense_area defender_in_defense_area_from_proto
original_defender_in_defense_area-defender_in_defense_area_from_proto m = simp originals

unfoldable pub original_defender_in_defense_area_partially :
    DefenderInDefenseAreaPartiallyMsg → DefenderInDefenseAreaPartially
original_defender_in_defense_area_partially ros_msg = record {
  by_team = original_team ros_msg.by_team;
  by_bot = first ros_msg.by_bot;
  location = first (map original_vector2 ros_msg.location);
  distance = first ros_msg.distance;
  ball_location = first (map original_vector2 ros_msg.ball_location);
}

pub original_defender_in_defense_area_partially-defender_in_defense_area_partially_from_proto :
    (m : DefenderInDefenseAreaPartially)
    → original_defender_in_defense_area_partially (defender_in_defense_area_partially_from_proto m)
      ≡ m
unfolding original_defender_in_defense_area_partially defender_in_defense_area_partially_from_proto
original_defender_in_defense_area_partially-defender_in_defense_area_partially_from_proto m =
    simp originals

unfoldable pub original_defender_too_close_to_kick_point :
    DefenderTooCloseToKickPointMsg → DefenderTooCloseToKickPoint
original_defender_too_close_to_kick_point ros_msg = record {
  by_team = original_team ros_msg.by_team;
  by_bot = first ros_msg.by_bot;
  location = first (map original_vector2 ros_msg.location);
  distance = first ros_msg.distance;
}

pub original_defender_too_close_to_kick_point-defender_too_close_to_kick_point_from_proto :
    (m : DefenderTooCloseToKickPoint)
    → original_defender_too_close_to_kick_point (defender_too_close_to_kick_point_from_proto m) ≡ m
unfolding original_defender_too_close_to_kick_point defender_too_close_to_kick_point_from_proto
original_defender_too_close_to_kick_point-defender_too_close_to_kick_point_from_proto m =
    simp originals

unfoldable pub original_boundary_crossing : BoundaryCrossingMsg → BoundaryCrossing
original_boundary_crossing ros_msg = record {
  by_team = original_team ros_msg.by_team;
  location = first (map original_vector2 ros_msg.location);
}

pub original_boundary_crossing-boundary_crossing_from_proto :
    (m : BoundaryCrossing) → original_boundary_crossing (boundary_crossing_from_proto m) ≡ m
unfolding original_boundary_crossing boundary_crossing_from_proto
original_boundary_crossing-boundary_crossing_from_proto m = simp originals

unfoldable pub original_keeper_held_ball : KeeperHeldBallMsg → KeeperHeldBall
original_keeper_held_ball ros_msg = record {
  by_team = original_team ros_msg.by_team;
  location = first (map original_vector2 ros_msg.location);
  duration = first ros_msg.duration;
}

pub original_keeper_held_ball-keeper_held_ball_from_proto :
    (m : KeeperHeldBall) → original_keeper_held_ball (keeper_held_ball_from_proto m) ≡ m
unfolding original_keeper_held_ball keeper_held_ball_from_proto
original_keeper_held_ball-keeper_held_ball_from_proto m = simp originals

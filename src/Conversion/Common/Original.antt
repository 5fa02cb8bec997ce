-- ===== src/Conversion/Common/Original.antt =====
-- The messages of Common.antt read back: what a ROS message says of the protobuf message it came from.
use ssl_ros_bridge.Prelude.{Option, ◌≡◌, refl, map}
use ssl_ros_bridge.TeamClient.Messages.{Team, unknown}
use ssl_ros_bridge.Conversion.Fields.{
  first, copy_optional, copy_optional_struct, or_default, first-copy_optional,
  first-copy_optional_struct,
}
use ssl_ros_bridge.Conversion.Enums.Constants.{team_called, team_called-team_number}
use ssl_ros_bridge.Conversion.Common.{
  Vector2, Point32, TeamMsg, RobotId, RobotIdMsg, vector2_from_proto, team_from_proto,
  robot_id_from_proto,
}

unfoldable pub original_vector2 : Point32 → Vector2
original_vector2 p = record { x = p.x; y = p.y }

unfoldable pub original_team : TeamMsg → Team
original_team t = or_default unknown (team_called t.color)

unfoldable pub original_robot_id : RobotIdMsg → RobotId
original_robot_id r = record { team = first (map original_team r.team); id = first r.id }

original_vector2-vector2_from_proto : (v : Vector2) → original_vector2 (vector2_from_proto v) ≡ v
unfolding original_vector2 vector2_from_proto
original_vector2-vector2_from_proto v = refl

pub original_team-team_from_proto : (t : Team) → original_team (team_from_proto t) ≡ t
unfolding original_team team_from_proto
original_team-team_from_proto t = rw (team_called-team_number t)

pub first-vector2 :
    (o : Option Vector2)
    → first (map original_vector2 (copy_optional_struct vector2_from_proto o)) ≡ o
first-vector2 o =
    first-copy_optional_struct vector2_from_proto original_vector2
      original_vector2-vector2_from_proto o

pub first-team :
    (o : Option Team) → first (map original_team (copy_optional_struct team_from_proto o)) ≡ o
first-team o =
    first-copy_optional_struct team_from_proto original_team original_team-team_from_proto o

-- What undoes the conversion of each kind of field.
pub ruleset originals =
    (first-copy_optional, first-vector2, first-team, original_team-team_from_proto)

pub original_robot_id-robot_id_from_proto :
    (r : RobotId) → original_robot_id (robot_id_from_proto r) ≡ r
unfolding original_robot_id robot_id_from_proto
original_robot_id-robot_id_from_proto r = simp originals

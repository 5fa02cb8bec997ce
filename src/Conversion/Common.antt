-- ===== src/Conversion/Common.antt =====
-- The conversions of the messages of ssl_gc_geometry.proto and ssl_gc_common.proto.
pub mod Original
use ssl_ros_bridge.Prelude.{ℕ, ◌%◌, ◌^◌, Option, List}
use ssl_ros_bridge.TeamClient.Messages.{Team}
use ssl_ros_bridge.Conversion.Fields.{Float32, copy_optional, copy_optional_struct}
use ssl_ros_bridge.Conversion.Enums.{Division, division_number, team_number}

pub record Vector2 : Type 0 where
  pub x : Float32
  pub y : Float32

pub record Vector3 : Type 0 where
  pub x : Float32
  pub y : Float32
  pub z : Float32

-- geometry_msgs::msg::Point32, whose coordinates are zero at first; so are the bits of that zero.
pub record Point32 : Type 0 where
  pub x : Float32
  pub y : Float32
  pub z : Float32

pub record TeamMsg : Type 0 where
  pub color : ℕ

pub record DivisionMsg : Type 0 where
  pub division : ℕ

pub record RobotId : Type 0 where
  pub id : Option ℕ
  pub team : Option Team

pub record RobotIdMsg : Type 0 where
  pub id : List ℕ
  pub team : List TeamMsg

unfoldable pub vector2_from_proto : Vector2 → Point32
vector2_from_proto proto_msg = record { x = proto_msg.x; y = proto_msg.y; z = 0 }

unfoldable pub vector3_from_proto : Vector3 → Point32
vector3_from_proto proto_msg = record { x = proto_msg.x; y = proto_msg.y; z = proto_msg.z }

unfoldable pub division_from_proto : Division → DivisionMsg
division_from_proto proto_msg = record { division = division_number proto_msg % 2 ^ 8 }

unfoldable pub team_from_proto : Team → TeamMsg
team_from_proto proto_msg = record { color = team_number proto_msg % 2 ^ 8 }

unfoldable pub robot_id_from_proto : RobotId → RobotIdMsg
robot_id_from_proto proto_msg = record {
  team = copy_optional_struct team_from_proto proto_msg.team;
  id = copy_optional proto_msg.id;
}

-- ===== src/Conversion/Vision/Geometry.antt =====
-- The messages of ssl_vision_geometry.proto and their conversion. The type of a line or an arc, the
-- image's size of a camera and the models of a geometry packet, which no conversion reads, are left out.
use ssl_ros_bridge.Prelude.{ℕ, ℤ, pos, String, Option, List, map}
use ssl_ros_bridge.Conversion.Fields.{Float32, or_default}
use ssl_ros_bridge.Conversion.Arithmetic.{Arithmetic}
use ssl_ros_bridge.Conversion.Common.{Point32}
use ssl_ros_bridge.Conversion.Vision.Detection.{PoseMsg}

pub record Vector2f : Type 0 where
  pub x : Float32
  pub y : Float32

pub record SslFieldLineSegment : Type 0 where
  pub name : String
  pub p1 : Vector2f
  pub p2 : Vector2f
  pub thickness : Float32

pub record SslFieldCircularArc : Type 0 where
  pub name : String
  pub center : Vector2f
  pub radius : Float32
  pub a1 : Float32
  pub a2 : Float32
  pub thickness : Float32

pub record SslGeometryFieldSize : Type 0 where
  pub field_length : ℤ
  pub field_width : ℤ
  pub goal_width : ℤ
  pub goal_depth : ℤ
  pub boundary_width : ℤ
  pub field_lines : List SslFieldLineSegment
  pub field_arcs : List SslFieldCircularArc
  pub penalty_area_depth : Option ℤ
  pub penalty_area_width : Option ℤ
  pub center_circle_radius : Option ℤ
  pub line_thickness : Option ℤ
  pub goal_center_to_penalty_mark : Option ℤ
  pub goal_height : Option ℤ
  pub ball_radius : Option Float32
  pub max_robot_radius : Option Float32

pub record SslGeometryCameraCalibration : Type 0 where
  pub camera_id : ℕ
  pub focal_length : Float32
  pub principal_point_x : Float32
  pub principal_point_y : Float32
  pub distortion : Float32
  pub q0 : Float32
  pub q1 : Float32
  pub q2 : Float32
  pub q3 : Float32
  pub tx : Float32
  pub ty : Float32
  pub tz : Float32
  pub derived_camera_world_tx : Option Float32
  pub derived_camera_world_ty : Option Float32
  pub derived_camera_world_tz : Option Float32

pub record SslGeometryData : Type 0 where
  pub field : SslGeometryFieldSize
  pub calib : List SslGeometryCameraCalibration

pub record VisionFieldLineSegmentMsg : Type 0 where
  pub name : String
  pub p1 : Point32
  pub p2 : Point32
  pub thickness : Float32

pub record VisionFieldCircularArcMsg : Type 0 where
  pub name : String
  pub center : Point32
  pub radius : Float32
  pub a1 : Float32
  pub a2 : Float32
  pub thickness : Float32

pub record VisionGeometryFieldSizeMsg : Type 0 where
  pub field_length : Float32
  pub field_width : Float32
  pub goal_width : Float32
  pub goal_depth : Float32
  pub boundary_width : Float32
  pub field_lines : List VisionFieldLineSegmentMsg
  pub field_arcs : List VisionFieldCircularArcMsg
  pub penalty_area_depth : Float32
  pub penalty_area_width : Float32
  pub center_circle_radius : Float32
  pub line_thickness : Float32
  pub goal_center_to_penalty_mark : Float32
  pub goal_height : Float32
  pub ball_radius : Float32
  pub max_robot_radius : Float32

pub record VisionGeometryCameraCalibrationMsg : Type 0 where
  pub camera_id : ℕ
  pub focal_length : Float32
  pub principal_point : Point32
  pub distortion : Float32
  pub pose : PoseMsg
  pub derived_camera_world_t : Point32

pub record VisionGeometryDataMsg : Type 0 where
  pub field : VisionGeometryFieldSizeMsg
  pub calibration : List VisionGeometryCameraCalibrationMsg

module _ (arithmetic : Arithmetic) where
  -- A point of the field in metres.
  abbrev point_in_metres : Vector2f → Point32
  point_in_metres p = record {
    x = arithmetic.times_mm_to_m p.x;
    y = arithmetic.times_mm_to_m p.y;
    z = 0;
  }

  unfoldable pub line_segment_from_proto : SslFieldLineSegment → VisionFieldLineSegmentMsg
  line_segment_from_proto proto_msg = record {
    name = proto_msg.name;
    p1 = point_in_metres proto_msg.p1;
    p2 = point_in_metres proto_msg.p2;
    thickness = arithmetic.times_mm_to_m proto_msg.thickness;
  }

  unfoldable pub circular_arc_from_proto : SslFieldCircularArc → VisionFieldCircularArcMsg
  circular_arc_from_proto proto_msg = record {
    name = proto_msg.name;
    center = point_in_metres proto_msg.center;
    radius = arithmetic.times_mm_to_m proto_msg.radius;
    a1 = proto_msg.a1;
    a2 = proto_msg.a2;
    thickness = arithmetic.times_mm_to_m proto_msg.thickness;
  }

  unfoldable pub field_size_from_proto : SslGeometryFieldSize → VisionGeometryFieldSizeMsg
  field_size_from_proto proto_msg = record {
    field_length = arithmetic.int_times_mm_to_m proto_msg.field_length;
    field_width = arithmetic.int_times_mm_to_m proto_msg.field_width;
    goal_width = arithmetic.int_times_mm_to_m proto_msg.goal_width;
    goal_depth = arithmetic.int_times_mm_to_m proto_msg.goal_depth;
    boundary_width = arithmetic.int_times_mm_to_m proto_msg.boundary_width;
    field_lines = map line_segment_from_proto proto_msg.field_lines;
    field_arcs = map circular_arc_from_proto proto_msg.field_arcs;
    penalty_area_depth =
        arithmetic.int_times_mm_to_m (or_default (pos 0) proto_msg.penalty_area_depth);
    penalty_area_width =
        arithmetic.int_times_mm_to_m (or_default (pos 0) proto_msg.penalty_area_width);
    center_circle_radius =
        arithmetic.int_times_mm_to_m (or_default (pos 0) proto_msg.center_circle_radius);
    line_thickness = arithmetic.int_times_mm_to_m (or_default (pos 0) proto_msg.line_thickness);
    goal_center_to_penalty_mark =
        arithmetic.int_times_mm_to_m (or_default (pos 0) proto_msg.goal_center_to_penalty_mark);
    goal_height = arithmetic.int_times_mm_to_m (or_default (pos 0) proto_msg.goal_height);
    ball_radius = arithmetic.times_mm_to_m (or_default 0 proto_msg.ball_radius);
    max_robot_radius = arithmetic.times_mm_to_m (or_default 0 proto_msg.max_robot_radius);
  }

  unfoldable pub camera_calibration_from_proto :
      SslGeometryCameraCalibration → VisionGeometryCameraCalibrationMsg
  camera_calibration_from_proto proto_msg = record {
    camera_id = proto_msg.camera_id;
    focal_length = proto_msg.focal_length;
    principal_point = record {
      x = proto_msg.principal_point_x;
      y = proto_msg.principal_point_y;
      z = 0;
    };
    distortion = proto_msg.distortion;
    pose = record {
      orientation = record {
        x = arithmetic.to_double proto_msg.q0;
        y = arithmetic.to_double proto_msg.q1;
        z = arithmetic.to_double proto_msg.q2;
        w = arithmetic.to_double proto_msg.q3;
      };
      position = record {
        x = arithmetic.to_double (arithmetic.times_mm_to_m proto_msg.tx);
        y = arithmetic.to_double (arithmetic.times_mm_to_m proto_msg.ty);
        z = arithmetic.to_double (arithmetic.times_mm_to_m proto_msg.tz);
      };
    };
    derived_camera_world_t = record {
      x = arithmetic.times_mm_to_m (or_default 0 proto_msg.derived_camera_world_tx);
      y = arithmetic.times_mm_to_m (or_default 0 proto_msg.derived_camera_world_ty);
      z = arithmetic.times_mm_to_m (or_default 0 proto_msg.derived_camera_world_tz);
    };
  }

  unfoldable pub geometry_from_proto : SslGeometryData → VisionGeometryDataMsg
  geometry_from_proto proto_msg = record {
    field = field_size_from_proto proto_msg.field;
    calibration = map camera_calibration_from_proto proto_msg.calib;
  }

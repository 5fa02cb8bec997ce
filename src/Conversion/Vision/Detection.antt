-- ===== src/Conversion/Vision/Detection.antt =====
-- The messages of ssl_vision_detection.proto and their conversion.
use ssl_ros_bridge.Prelude.{ℕ, Option, List, map}
use ssl_ros_bridge.Conversion.Fields.{Float32, Float64, or_default}
use ssl_ros_bridge.Conversion.Arithmetic.{Arithmetic, TimeMsg, QuaternionMsg}
use ssl_ros_bridge.Conversion.Common.{Point32}

pub record SslDetectionBall : Type 0 where
  pub confidence : Float32
  pub area : Option ℕ
  pub x : Float32
  pub y : Float32
  pub z : Option Float32
  pub pixel_x : Float32
  pub pixel_y : Float32

pub record SslDetectionRobot : Type 0 where
  pub confidence : Float32
  pub robot_id : Option ℕ
  pub x : Float32
  pub y : Float32
  pub orientation : Option Float32
  pub pixel_x : Float32
  pub pixel_y : Float32
  pub height : Option Float32

pub record SslDetectionFrame : Type 0 where
  pub frame_number : ℕ
  pub t_capture : Float64
  pub t_sent : Float64
  pub t_capture_camera : Option Float64
  pub camera_id : ℕ
  pub balls : List SslDetectionBall
  pub robots_yellow : List SslDetectionRobot
  pub robots_blue : List SslDetectionRobot

pub record VisionDetectionBallMsg : Type 0 where
  pub confidence : Float32
  pub area : ℕ
  pub pos : Point32
  pub pixel : Point32

-- geometry_msgs::msg::Point and Pose
pub record PointMsg : Type 0 where
  pub x : Float64
  pub y : Float64
  pub z : Float64

pub record PoseMsg : Type 0 where
  pub position : PointMsg
  pub orientation : QuaternionMsg

pub record VisionDetectionRobotMsg : Type 0 where
  pub confidence : Float32
  pub robot_id : ℕ
  pub pose : PoseMsg
  pub pixel : Point32
  pub height : Float32

pub record VisionDetectionFrameMsg : Type 0 where
  pub frame_number : ℕ
  pub t_capture : TimeMsg
  pub t_sent : TimeMsg
  pub t_capture_camera : TimeMsg
  pub camera_id : ℕ
  pub balls : List VisionDetectionBallMsg
  pub robots_yellow : List VisionDetectionRobotMsg
  pub robots_blue : List VisionDetectionRobotMsg

module _ (arithmetic : Arithmetic) where
  unfoldable pub ball_from_proto : SslDetectionBall → VisionDetectionBallMsg
  ball_from_proto proto_msg = record {
    confidence = proto_msg.confidence;
    area = or_default 0 proto_msg.area;
    pos = record {
      x = arithmetic.times_mm_to_m proto_msg.x;
      y = arithmetic.times_mm_to_m proto_msg.y;
      z = arithmetic.times_mm_to_m (or_default 0 proto_msg.z);
    };
    pixel = record { x = proto_msg.pixel_x; y = proto_msg.pixel_y; z = 0 };
  }

  unfoldable pub robot_from_proto : SslDetectionRobot → VisionDetectionRobotMsg
  robot_from_proto proto_msg = record {
    confidence = proto_msg.confidence;
    robot_id = or_default 0 proto_msg.robot_id;
    pose = record {
      position = record {
        x = arithmetic.to_double (arithmetic.times_mm_to_m proto_msg.x);
        y = arithmetic.to_double (arithmetic.times_mm_to_m proto_msg.y);
        z = 0;
      };
      orientation =
          arithmetic.rotation_about_z (arithmetic.to_double (or_default 0 proto_msg.orientation));
    };
    pixel = record { x = proto_msg.pixel_x; y = proto_msg.pixel_y; z = 0 };
    height = or_default 0 proto_msg.height;
  }

  -- rclcpp::Time of a number of seconds.
  unfoldable pub time_of_seconds : Float64 → TimeMsg
  time_of_seconds s = arithmetic.time (arithmetic.times_sec_to_nanosec s)

  unfoldable pub frame_from_proto : SslDetectionFrame → VisionDetectionFrameMsg
  frame_from_proto proto_msg = record {
    frame_number = proto_msg.frame_number;
    t_capture = time_of_seconds proto_msg.t_capture;
    t_sent = time_of_seconds proto_msg.t_sent;
    t_capture_camera = time_of_seconds (or_default 0 proto_msg.t_capture_camera);
    camera_id = proto_msg.camera_id;
    balls = map ball_from_proto proto_msg.balls;
    robots_yellow = map robot_from_proto proto_msg.robots_yellow;
    robots_blue = map robot_from_proto proto_msg.robots_blue;
  }

-- ===== src/Conversion/Vision/Original.antt =====
-- What a reader of the vision messages learns of the packet: the detections, with lengths in metres.
use ssl_ros_bridge.Prelude.{◌≡◌, refl, Option, none, some, List, [], ◌∷◌, map}
use mathlib.Core.Option.{map as option_map}
use ssl_ros_bridge.Conversion.Fields.{Float32, Float64, or_default, first, copy_optional_struct}
use ssl_ros_bridge.Conversion.Arithmetic.{Arithmetic, TimeMsg, QuaternionMsg}
use ssl_ros_bridge.Conversion.Vision.{SslWrapperPacket, VisionWrapperMsg, wrapper_from_proto}
use ssl_ros_bridge.Conversion.Vision.Detection.{
  SslDetectionBall, SslDetectionRobot, SslDetectionFrame, VisionDetectionBallMsg,
  VisionDetectionRobotMsg, VisionDetectionFrameMsg, ball_from_proto, robot_from_proto,
  frame_from_proto, time_of_seconds,
}

-- An array for an optional message, read back message by message.
first-read :
    {A B : Type 0} (from_proto : A → B) (back : B → A) (kept : A → A)
    → ((a : A) → back (from_proto a) ≡ kept a)
    → (o : Option A) → first (map back (copy_optional_struct from_proto o)) ≡ option_map kept o
unfolding copy_optional_struct
first-read from_proto back kept read none = refl
first-read from_proto back kept read (some a) = rw (read a)

unfoldable pub original_ball : VisionDetectionBallMsg → SslDetectionBall
original_ball ros_msg = record {
  confidence = ros_msg.confidence;
  area = some ros_msg.area;
  x = ros_msg.pos.x;
  y = ros_msg.pos.y;
  z = some ros_msg.pos.z;
  pixel_x = ros_msg.pixel.x;
  pixel_y = ros_msg.pixel.y;
}

-- A reader of the messages: how it makes seconds and angles of what the message has for them.
module _ (seconds : TimeMsg → Float64) (angle : QuaternionMsg → Float32) where
  -- The packet's own detections with each position in metres (heights stay as they are), the times
  -- and angles as they come through a message, and 0 for what was not set.
  module _ (arithmetic : Arithmetic) where
    abbrev through_time : Float64 → Float64
    through_time s = seconds (arithmetic.time (arithmetic.times_sec_to_nanosec s))

    abbrev through_turn : Float32 → Float32
    through_turn a = angle (arithmetic.rotation_about_z (arithmetic.to_double a))

    unfoldable pub metric_ball : SslDetectionBall → SslDetectionBall
    metric_ball b = record b {
      area = some (or_default 0 b.area);
      x = arithmetic.times_mm_to_m b.x;
      y = arithmetic.times_mm_to_m b.y;
      z = some (arithmetic.times_mm_to_m (or_default 0 b.z));
    }

    unfoldable pub metric_robot : SslDetectionRobot → SslDetectionRobot
    metric_robot r = record r {
      robot_id = some (or_default 0 r.robot_id);
      x = arithmetic.times_mm_to_m r.x;
      y = arithmetic.times_mm_to_m r.y;
      orientation = some (through_turn (or_default 0 r.orientation));
      height = some (or_default 0 r.height);
    }

    unfoldable pub metric_frame : SslDetectionFrame → SslDetectionFrame
    metric_frame f = record f {
      t_capture = through_time f.t_capture;
      t_sent = through_time f.t_sent;
      t_capture_camera = some (through_time (or_default 0 f.t_capture_camera));
      balls = map metric_ball f.balls;
      robots_yellow = map metric_robot f.robots_yellow;
      robots_blue = map metric_robot f.robots_blue;
    }

  -- And how it makes floats of doubles.
  module _ (single : Float64 → Float32) where
    unfoldable pub original_robot : VisionDetectionRobotMsg → SslDetectionRobot
    original_robot ros_msg = record {
      confidence = ros_msg.confidence;
      robot_id = some ros_msg.robot_id;
      x = single ros_msg.pose.position.x;
      y = single ros_msg.pose.position.y;
      orientation = some (angle ros_msg.pose.orientation);
      pixel_x = ros_msg.pixel.x;
      pixel_y = ros_msg.pixel.y;
      height = some ros_msg.height;
    }

    unfoldable pub original_frame : VisionDetectionFrameMsg → SslDetectionFrame
    original_frame ros_msg = record {
      frame_number = ros_msg.frame_number;
      t_capture = seconds ros_msg.t_capture;
      t_sent = seconds ros_msg.t_sent;
      t_capture_camera = some (seconds ros_msg.t_capture_camera);
      camera_id = ros_msg.camera_id;
      balls = map original_ball ros_msg.balls;
      robots_yellow = map original_robot ros_msg.robots_yellow;
      robots_blue = map original_robot ros_msg.robots_blue;
    }

    unfoldable pub original_detection : VisionWrapperMsg → Option SslDetectionFrame
    original_detection ros_msg = first (map original_frame ros_msg.detection)

    module _ (arithmetic : Arithmetic) where
      original_balls :
          (bs : List SslDetectionBall)
          → map original_ball (map (ball_from_proto arithmetic) bs)
            ≡ map (metric_ball arithmetic) bs
      unfolding original_ball ball_from_proto metric_ball
      original_balls [] = refl
      original_balls (b ∷ bs) = rw (original_balls bs)

      module _ (exact : (x : Float32) → single (arithmetic.to_double x) ≡ x) where
        original_robots :
            (rs : List SslDetectionRobot)
            → map original_robot (map (robot_from_proto arithmetic) rs)
              ≡ map (metric_robot arithmetic) rs
        unfolding original_robot robot_from_proto metric_robot
        original_robots [] = refl
        original_robots (r ∷ rs) = rw (
          exact (arithmetic.times_mm_to_m r.x),
          exact (arithmetic.times_mm_to_m r.y),
          original_robots rs,
        )

        original_frame-frame_from_proto :
            (f : SslDetectionFrame)
            → original_frame (frame_from_proto arithmetic f) ≡ metric_frame arithmetic f
        unfolding original_frame frame_from_proto metric_frame time_of_seconds
        original_frame-frame_from_proto f =
            rw
              (
                original_balls f.balls,
                original_robots f.robots_yellow,
                original_robots f.robots_blue,
              )
              refl

        -- From the ROS message of a vision packet its detections can be read back, if there are any:
        -- the frame with its numbers and times, and its balls and the robots of each team, in order,
        -- each where it was seen, with positions multiplied by mmTom once, heights as they were, times
        -- and angles as they come through the message's types, and 0 for what was not set; given that
        -- a float that became a double can be had back.
        pub original_detection-wrapper_from_proto :
            (p : SslWrapperPacket)
            → original_detection (wrapper_from_proto arithmetic p)
              ≡ option_map (metric_frame arithmetic) p.detection
        unfolding original_detection wrapper_from_proto
        original_detection-wrapper_from_proto p =
            first-read (frame_from_proto arithmetic) original_frame (metric_frame arithmetic)
              original_frame-frame_from_proto p.detection

-- ===== src/Conversion/Examples.antt =====
-- A referee message, a vision packet and an arithmetic to try the conversion on.
use ssl_ros_bridge.Prelude.{◌/◌, ◌%◌, refl, ℤ, pos, negsuc, none, some, [], ◌∷◌, true, false}
use ssl_ros_bridge.TeamClient.Messages.{blue}
use ssl_ros_bridge.Conversion.Arithmetic.{Arithmetic, TimeMsg}
use ssl_ros_bridge.Conversion.Enums.{
  Stage, normal_first_half, Command, normal_start, ball_placement_blue, MatchType, group_phase,
}
use ssl_ros_bridge.Conversion.Enums as Enums
use ssl_ros_bridge.Conversion.Events.Sanctions.{PlacementFailed}
use ssl_ros_bridge.Conversion.GameEvents.{GameEventHeader, game_event, placement_failed, no_event}
use ssl_ros_bridge.Conversion.Referees.{TeamInfo, Referee}
use ssl_ros_bridge.Conversion.Referees.Timestamps.{IsExact}
use ssl_ros_bridge.Conversion.Vision.{SslWrapperPacket}
use ssl_ros_bridge.Conversion.Vision.Detection.{SslDetectionRobot, SslDetectionBall}

-- Seconds and nanoseconds of a time that is not negative, and numbers that stay what they are.
abbrev time_of : ℤ → TimeMsg
time_of (pos ns) = record { sec = pos (ns / 1_000_000_000); nanosec = ns % 1_000_000_000 }
time_of (negsuc n) = record { sec = negsuc 0; nanosec = 0 }

abbrev pub plain : Arithmetic
plain = record {
  time = time_of;
  divide_by_1e3 = λ x. x;
  times_mm_to_m = λ x. x;
  int_times_mm_to_m = λ x. 0;
  times_sec_to_nanosec = λ x. pos x;
  to_double = λ x. x;
  rotation_about_z = λ x. record { x = 0; y = 0; z = x; w = 0 };
}

pub plain-IsExact : IsExact plain
plain-IsExact ns h = refl

abbrev pub failed_placement : PlacementFailed
failed_placement = record {
  by_team = blue;
  remaining_distance = some 5;
  nearest_own_bot_distance = some 6;
}

abbrev pub header : GameEventHeader
header = record {
  id = some "a";
  type = some Enums.placement_failed;
  origin = "referee" ∷ [];
  created_timestamp = none;
}

abbrev pub team : TeamInfo
team = record {
  name = "A-Team";
  score = 2;
  red_cards = 0;
  yellow_card_times = 100 ∷ 90 ∷ [];
  yellow_cards = 2;
  timeouts = 4;
  timeout_time = 300;
  goalkeeper = 1;
  foul_counter = some 3;
  ball_placement_failures = none;
  can_place_ball = some true;
  max_allowed_bots = some 5;
  bot_substitution_intent = none;
  ball_placement_failures_reached = none;
  bot_substitution_allowed = some false;
  bot_substitutions_left = none;
  bot_substitution_time_left = some 7;
}

abbrev pub message : Referee
message = record {
  source_identifier = some "gc";
  match_type = some group_phase;
  packet_timestamp = 1_500_000;
  stage = normal_first_half;
  stage_time_left = some (negsuc 4);
  command = normal_start;
  command_counter = 12;
  command_timestamp = 1_400_000;
  yellow = team;
  blue = record team { name = "Others"; score = 1 };
  designated_position = some (record { x = 8; y = 9 });
  blue_team_on_positive_half = none;
  next_command = some ball_placement_blue;
  game_events = game_event header (placement_failed failed_placement) ∷ [];
  game_event_proposals =
      record { id = none; game_events = game_event header no_event ∷ []; accepted = none } ∷ [];
  current_action_time_remaining = some (pos 9);
  status_message = none;
}

abbrev pub robot : SslDetectionRobot
robot = record {
  confidence = 1;
  robot_id = none;
  x = 10;
  y = 20;
  orientation = none;
  pixel_x = 3;
  pixel_y = 4;
  height = some 150;
}

abbrev pub ball : SslDetectionBall
ball = record { confidence = 1; area = none; x = 30; y = 40; z = none; pixel_x = 5; pixel_y = 6 }

abbrev pub vision_packet : SslWrapperPacket
vision_packet = record {
  detection = some (record {
    frame_number = 7;
    t_capture = 1;
    t_sent = 2;
    t_capture_camera = none;
    camera_id = 0;
    balls = ball ∷ [];
    robots_yellow = robot ∷ [];
    robots_blue = record robot { robot_id = some 4 } ∷ [];
  });
  geometry = none;
}

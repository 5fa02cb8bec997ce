-- ===== src/Conversion/Tests.antt =====
-- The conversion on a referee message with a game event of a kind that loses a field, and on a vision packet.
use ssl_ros_bridge.Prelude.{◌*◌, ◌/◌, ◌%◌, ◌≡◌, refl, pos, to_list, arith}
use ssl_ros_bridge.Conversion.Examples.{
  plain, plain-IsExact, failed_placement, header, team, message, vision_packet,
}
use ssl_ros_bridge.Conversion.GameEvents.{game_event, placement_failed}
use ssl_ros_bridge.Conversion.GameEvents.Message.{game_event_from_proto}
use ssl_ros_bridge.Conversion.GameEvents.Dispatch.{dispatch}
use ssl_ros_bridge.Conversion.GameEvents.Dispatch.Agrees.{game_event_from_proto-dispatch}
use ssl_ros_bridge.Conversion.GameEvents.Original.{original_header, original_events}
use ssl_ros_bridge.Conversion.GameEvents.Original.Recovered.{
  kept, with_defaults, game_event_recovered,
}
use ssl_ros_bridge.Conversion.Referees.{
  team_info_from_proto, time_of_microseconds, referee_from_proto,
}
use ssl_ros_bridge.Conversion.Referees.Original.{
  original_team_info, original_team_info-team_info_from_proto, original_referee, remembered_referee,
  original_referee-referee_from_proto,
}
use ssl_ros_bridge.Conversion.Referees.Timestamps.{time_of_microseconds_lem}
use ssl_ros_bridge.Conversion.Vision.{wrapper_from_proto}
use ssl_ros_bridge.Conversion.Vision.Original.{
  original_detection, metric_frame, original_detection-wrapper_from_proto,
}
use mathlib.Core.Option.{map as option_map}

original_referee-referee_from_proto_example :
    original_referee (referee_from_proto plain message) ≡ remembered_referee message
original_referee-referee_from_proto_example =
    original_referee-referee_from_proto plain message plain-IsExact (omega arith) (omega arith)

original_team_info-team_info_from_proto_example :
    original_team_info (team_info_from_proto team) ≡ team
original_team_info-team_info_from_proto_example = original_team_info-team_info_from_proto team

time_of_microseconds_lem_example :
    time_of_microseconds plain 1_500_000
    ≡ record { sec = pos (1_500_000 / 1_000_000); nanosec = 1_500_000 % 1_000_000 * 1000 }
time_of_microseconds_lem_example =
    time_of_microseconds_lem plain plain-IsExact 1_500_000 (omega arith)

game_event_from_proto-dispatch_example :
    game_event_from_proto (game_event header (placement_failed failed_placement))
    ≡ dispatch header (placement_failed failed_placement)
game_event_from_proto-dispatch_example =
    game_event_from_proto-dispatch header (placement_failed failed_placement)

game_event_recovered_example :
    let m = game_event_from_proto (game_event header (placement_failed failed_placement)) in
    (original_header m ≡ with_defaults header)
    × (original_events m ≡ to_list (kept (placement_failed failed_placement)))
game_event_recovered_example = game_event_recovered header (placement_failed failed_placement)

original_detection-wrapper_from_proto_example :
    original_detection
      (λ time. time.nanosec)
      (λ turn. turn.z)
      (λ x. x)
      (wrapper_from_proto plain vision_packet)
    ≡ option_map
        (metric_frame (λ time. time.nanosec) (λ turn. turn.z) plain)
        vision_packet.detection
original_detection-wrapper_from_proto_example =
    original_detection-wrapper_from_proto (λ time. time.nanosec) (λ turn. turn.z) (λ x. x) plain
      (λ x. refl) vision_packet

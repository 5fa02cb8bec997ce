-- ===== src/Conversion/Vision.antt =====
-- The packets of ssl_vision_wrapper.proto and their conversion; the parts are in the children.
pub mod Detection
pub mod Geometry
pub mod Original
use ssl_ros_bridge.Prelude.{Option, List}
use ssl_ros_bridge.Conversion.Fields.{copy_optional_struct}
use ssl_ros_bridge.Conversion.Arithmetic.{Arithmetic}
use ssl_ros_bridge.Conversion.Vision.Detection.{
  SslDetectionFrame, VisionDetectionFrameMsg, frame_from_proto,
}
use ssl_ros_bridge.Conversion.Vision.Geometry.{
  SslGeometryData, VisionGeometryDataMsg, geometry_from_proto,
}

pub record SslWrapperPacket : Type 0 where
  pub detection : Option SslDetectionFrame
  pub geometry : Option SslGeometryData

pub record VisionWrapperMsg : Type 0 where
  pub detection : List VisionDetectionFrameMsg
  pub geometry : List VisionGeometryDataMsg

-- `push_back` on an array that is empty.
unfoldable pub wrapper_from_proto : Arithmetic → SslWrapperPacket → VisionWrapperMsg
wrapper_from_proto arithmetic proto_msg = record {
  detection = copy_optional_struct (frame_from_proto arithmetic) proto_msg.detection;
  geometry = copy_optional_struct (geometry_from_proto arithmetic) proto_msg.geometry;
}

-- ===== src/Log2bag.antt =====
-- ssl_ros_bridge/src/log2bag: reading an SSL game log and writing it as a ROS bag.
pub mod Stream
pub mod Bytes
pub mod Reader
pub mod Format
pub mod Convert
pub mod Playback
pub mod Tests

-- ===== src/Conversion.antt =====
-- The conversions of message_conversion.cpp. A protobuf message is a record or a data type of its own
-- name, the ROS message of the namespace ssl_league_msgs::msg one whose name ends in Msg, and the
-- overload of fromProto for a type X is x_from_proto. A required field is a value, an optional one an
-- `Option`, a repeated one a list; an optional field of a ROS message is an array, as it is there.
pub mod Fields
pub mod Enums
pub mod Common
pub mod Events
pub mod GameEvents
pub mod Arithmetic
pub mod Referees
pub mod Vision
pub mod Examples
pub mod Tests

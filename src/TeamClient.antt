-- ===== src/TeamClient.antt =====
-- ssl_ros_bridge/src/team_client: the client of the game controller's remote control, and the ROS
-- node around it.
pub mod Messages
pub mod Wait
pub mod Client
pub mod Node
pub mod Examples
pub mod Tests
pub mod NodeTests

-- ===== src/Conversion/Events.antt =====
-- The game events: each message that is nested in GameEvent, and its conversion.
pub mod Goals
pub mod Areas
pub mod Robots
pub mod Sanctions

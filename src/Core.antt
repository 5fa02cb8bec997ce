-- ===== src/Core.antt =====
-- The directory core without the message conversion: the interfaces' addresses, and the receiver of
-- multicast packets.
pub mod Addresses
pub mod Receiver
pub mod Launch
pub mod Tests

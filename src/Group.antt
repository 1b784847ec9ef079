-- ===== src/Group.antt =====
-- The sender-key group ratchet of group.c.
pub mod State
pub mod Message
pub mod AtRest
pub mod Store
pub mod Chain
pub mod Frames
pub mod Delivery
pub mod Safety
pub mod RoundTrip
mod Tests

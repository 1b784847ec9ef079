-- ===== src/Ratchet.antt =====
-- The Double Ratchet of ratchet.c.
pub mod State
pub mod Kdf
pub mod Header
pub mod Skip
pub mod Step
pub mod Message
pub mod Decrypt
pub mod InPlace
pub mod Init
pub mod AtRest
pub mod Fields
pub mod RoundTrip
pub mod Store
pub mod Chain
pub mod Frames
pub mod Delivery
pub mod Bounds
pub mod Sending
pub mod Bootstrap
mod Tests

-- ===== src/Sss.antt =====
-- Shamir secret sharing over GF(2^8), of sss.c.
pub mod Field
pub mod Tables
pub mod Laws
pub mod Linear
pub mod Interpolation
pub mod Products
pub mod Masks
pub mod Polynomial
pub mod Share
pub mod Join
pub mod Elements
pub mod Secret
pub mod Files
pub mod Splitting
pub mod Picks
pub mod Joining
pub mod RoundTrip
pub mod Sound
pub mod Secrecy
mod Tests

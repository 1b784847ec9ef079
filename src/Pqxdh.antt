-- ===== src/Pqxdh.antt =====
-- The PQXDH handshake of pqxdh.c, which seeds a Double Ratchet session.
pub mod State
pub mod Identity
pub mod Handshake
pub mod Keys
pub mod Served
pub mod Agreement
pub mod FirstStep
pub mod Binding
mod Tests

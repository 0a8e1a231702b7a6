-- ===== src/Revocation.antt =====
-- The revocation list (internal/platform/revocation).
pub mod Held
pub mod Meaning
pub mod Pruning
pub mod Store
pub mod Watch
mod Listed
pub mod Justified
pub mod Durable
mod Tests

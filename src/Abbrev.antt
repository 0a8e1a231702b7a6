-- ===== src/Abbrev.antt =====
-- The short code of a company (internal/platform/abbrev/abbrev.go).
pub mod Derive
pub mod Bounds
mod Tests

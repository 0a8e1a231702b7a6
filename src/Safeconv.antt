-- ===== src/Safeconv.antt =====
-- Bounded numeric conversions (internal/platform/safeconv/safeconv.go). A Go integer is an integer
-- in its range, and a conversion to 32 or 8 bits wraps.
pub mod Clamp
pub mod Bounds

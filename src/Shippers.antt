-- ===== src/Shippers.antt =====
-- Shippers that a transporter records, and that claim their company later
-- (internal/services/shipper_service.go).
pub mod Tables
pub mod Record
pub mod Claiming
pub mod Claimed
pub mod Unique
pub mod Index
pub mod Offered
pub mod Shared
mod Tests

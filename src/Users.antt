-- ===== src/Users.antt =====
-- The administration of users (internal/services/user_service.go).
pub mod Directory
pub mod Permissions
pub mod Accounts
mod Steps
pub mod Updated
pub mod Granted
pub mod Usable
pub mod Isolation
mod Atomic
pub mod Refused
pub mod Suspension
pub mod Allowlist
pub mod Registration
pub mod Enrolment
pub mod Seats
mod Tests

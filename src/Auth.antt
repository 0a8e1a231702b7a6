-- ===== src/Auth.antt =====
-- The authentication service (internal/services/auth_service.go) over its tables.
pub mod Store
pub mod Exec
pub mod Rows
pub mod Sessions
pub mod Tokens
pub mod Login
pub mod Refresh
pub mod Account
pub mod Validate
pub mod Rotation
pub mod Admission
pub mod Eviction
pub mod Credentials
pub mod Passwords
pub mod Standing
pub mod Ended
pub mod FailClosed
mod Tests

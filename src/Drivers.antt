-- ===== src/Drivers.antt =====
-- The logins that a company gives its drivers (internal/services/driver_account_service.go).
pub mod Names
pub mod Accounts
pub mod Free
pub mod Registered
pub mod Adopted
mod Tests

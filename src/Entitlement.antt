-- ===== src/Entitlement.antt =====
-- What a company has bought, and what that makes of its people's access.
pub mod Rows
pub mod Features
pub mod Statements
pub mod Purchases
pub mod Modules
pub mod Withdrawal
pub mod Service
pub mod Sales
pub mod Ended
mod Tests

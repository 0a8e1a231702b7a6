-- ===== src/Access.antt =====
-- What a person may do, from their role, their extras, and what their company has bought
-- (internal/repository/access_repository.go).
pub mod Assemble
pub mod Keys
pub mod Build
pub mod Visible
pub mod Assembled
pub mod Reach
mod Tests

-- ===== src/Query.antt =====
-- Listing parameters (internal/platform/query/query.go), and their translation to SQL
-- (internal/repository/query.go).
pub mod Atoi
pub mod Types
pub mod Parse
pub mod Proto
pub mod Sql
pub mod Paging
pub mod Allowlist
pub mod Understood
pub mod Quoting
pub mod Dropped
mod Tests

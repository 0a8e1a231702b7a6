-- ===== src/Import.antt =====
-- The plan of the import of the old users (cmd/import/plan.go).
pub mod Roots
pub mod Climbing
pub mod Mapping
pub mod Carried
mod Tests

-- ===== src/Merge.antt =====
-- Folding one company into another (internal/services/merge_service.go).
pub mod Companies
pub mod Tenants
pub mod Chains
mod Tests

-- ===== src/Authctx/Features.antt =====
-- The registry of sellable entitlements (internal/platform/authctx/features.go).
pub mod FmsRegistry
pub mod Tables
pub mod Registry
pub mod Validate
pub mod Gated

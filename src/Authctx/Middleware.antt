-- ===== src/Authctx/Middleware.antt =====
-- The HTTP guards (internal/platform/authctx/middleware.go).
pub mod Guards
pub mod Auth
pub mod Announced

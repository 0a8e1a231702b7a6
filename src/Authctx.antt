-- ===== src/Authctx.antt =====
-- The principal and what it may do (internal/platform/authctx).
pub mod Product
pub mod Catalog
pub mod Features
pub mod Principal
pub mod Grants
pub mod Shipped
pub mod Verifier
pub mod Middleware
pub mod Interceptor
mod Tests

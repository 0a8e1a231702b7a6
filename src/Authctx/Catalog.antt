-- ===== src/Authctx/Catalog.antt =====
-- The shipped permission catalogues: `catalogs` of internal/platform/authctx/product.go over the
-- tables of catalog_tms.go and catalog_fms.go.
pub mod Tms
pub mod Fms
pub mod Shipped

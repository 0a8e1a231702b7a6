-- ===== src/Authctx/Catalog/Shipped.antt =====
-- `catalogs` of internal/platform/authctx/product.go, and the default grant of catalog_tms.go.
use authentication_service.Prelude.{String, List, [], ◌∷◌}
use authentication_service.Authctx.Product.{Catalogs, product_tms, product_fms}
use authentication_service.Authctx.Catalog.Tms.{tms_catalog}
use authentication_service.Authctx.Catalog.Fms.{fms_catalog}

unfoldable pub catalogs : Catalogs
unfolding tms_catalog fms_catalog
catalogs = (product_tms, tms_catalog) ∷ (product_fms, fms_catalog) ∷ []

-- DefaultTMSFeatures
unfoldable pub default_tms_features : List String
default_tms_features =
    "order" ∷ "agreement" ∷ "invoice" ∷ "shipment" ∷ "truck" ∷ "warehouse" ∷ "customer"
    ∷ "dashboard" ∷ "notification" ∷ "dispatch" ∷ "configuration" ∷ "collaboration" ∷ "masterData"
    ∷ []

-- ===== src/Authctx/Features/Registry.antt =====
-- The decoding of the mirrored FMS registry, and the index of every declared feature
-- (internal/platform/authctx/features.go). The embedded JSON is the table that it parses to.
use authentication_service.Prelude.{
  String, Bool, true, false, ◌&&◌, List, [], ◌∷◌, Option, none, some, map, if◌then◌else◌,
}
use authentication_service.Prelude.Dict.{Dict, lookup, insert}
use authentication_service.Authctx.Product.{Product, product_tms, product_fms, product_shared}
use authentication_service.Authctx.Features.FmsRegistry.{FmsDef, fms_registry_json}
use authentication_service.Authctx.Features.Tables.{Feature, tms_features, shared_features}

-- The loop of decodeFMSRegistry.
unfoldable pub decode_fms_registry : Bool → List FmsDef → List Feature
decode_fms_registry live_only [] = []
decode_fms_registry live_only (d ∷ defs) =
    let rest = decode_fms_registry live_only defs in
    if live_only && d.dev
    then rest
    else record {
      name = d.key;
      owner = product_fms;
      description = d.label;
      parent = d.parent;
      roadmap = d.dev;
    }
      ∷ rest

-- FMSRegistry
unfoldable pub fms_registry : List Feature
unfolding decode_fms_registry fms_registry_json
fms_registry = decode_fms_registry false fms_registry_json

unfoldable pub fms_features : List Feature
unfolding decode_fms_registry fms_registry_json
fms_features = decode_fms_registry true fms_registry_json

-- `for _, f := range fs { m[f.Name] = f }`
unfoldable pub index_features : Dict Feature → List Feature → Dict Feature
index_features m [] = m
index_features m (f ∷ fs) = index_features (insert f.name f m) fs

-- featureRegistry: the shared features are written last, under every product.
unfoldable pub feature_registry : Dict (Dict Feature)
unfolding index_features tms_features fms_features shared_features insert
feature_registry =
    (product_tms, index_features (index_features [] tms_features) shared_features)
    ∷ (product_fms, index_features (index_features [] fms_features) shared_features)
    ∷ (product_shared, index_features [] shared_features)
    ∷ []

abbrev pub or_no_features : Option (Dict Feature) → Dict Feature
or_no_features none = []
or_no_features (some m) = m

abbrev pub is_present {ℓ} : {V : Type ℓ} → Option V → Bool
is_present none = false
is_present (some _) = true

-- IsSellableFeature
unfoldable pub is_sellable_feature : Product → String → Bool
unfolding feature_registry lookup
is_sellable_feature product name =
    is_present (lookup name (or_no_features (lookup product feature_registry)))

-- SellableFeatures: the values of the product's index.
unfoldable pub sellable_features : Product → List Feature
unfolding feature_registry lookup
sellable_features product = map (λ e. e.1) (or_no_features (lookup product feature_registry))

-- IsKnownProduct
unfoldable pub is_known_product : Product → Bool
unfolding feature_registry lookup
is_known_product p = is_present (lookup p feature_registry)

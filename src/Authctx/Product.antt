-- ===== src/Authctx/Product.antt =====
-- Products and permission catalogues (internal/platform/authctx/product.go): the types, and the
-- look-ups over any set of catalogues. A Go map is a `Dict`; its zero value is the empty one.
use authentication_service.Prelude.{
  String, Bool, true, false, ◌||◌, List, [], ◌∷◌, Option, none, some, ◌==◌, contains, if◌then◌else◌,
}
use authentication_service.Prelude.Dict.{Dict, lookup}

abbrev pub Product : Type 0
Product = String

abbrev pub product_tms : Product
product_tms = "tms"

abbrev pub product_fms : Product
product_fms = "fms"

abbrev pub product_shared : Product
product_shared = "shared"

pub record PermissionSpec : Type 0 where
  pub key : String
  pub feature : String
  pub group : String
  pub label : String

abbrev pub spec : String → String → String → String → PermissionSpec
spec key feature group label = record { key = key; feature = feature; group = group; label = label }

abbrev pub Catalog : Type 0
Catalog = Dict PermissionSpec

abbrev pub Catalogs : Type 0
Catalogs = Dict Catalog

-- `catalogs[product]`: nil, which reads as empty, for a product that is not listed.
abbrev pub or_empty : Option Catalog → Catalog
or_empty none = []
or_empty (some c) = c

module _ (catalogs : Catalogs) where
  -- CatalogFor
  unfoldable pub catalog_for : Product → Catalog
  unfolding lookup
  catalog_for product = or_empty (lookup product catalogs)

  -- FeatureFor: the entitlement gating a permission, none if the permission is not known.
  unfoldable pub feature_for : Product → String → Option String
  feature_for product key = elim (lookup key (catalog_for product)) [
    | none ↦ none
    | some found ↦ some found.feature
  ]

  -- IsKnownPermission
  unfoldable pub is_known_permission : Product → String → Bool
  is_known_permission product key = elim (lookup key (catalog_for product)) [
    | none ↦ false
    | some _ ↦ true
  ]

-- The loop of FeaturesFor, after the features `seen`.
unfoldable pub distinct_features : List String → Catalog → List String
distinct_features seen [] = []
distinct_features seen ((_, s) ∷ rest) =
    let skipped = distinct_features seen rest in
    let taken = s.feature ∷ distinct_features (s.feature ∷ seen) rest in
    if s.feature == "" || contains seen s.feature then skipped else taken

-- FeaturesFor: every distinct entitlement that a product's catalogue references.
unfoldable pub features_for : Catalogs → Product → List String
unfolding distinct_features
features_for catalogs product = distinct_features [] (catalog_for catalogs product)

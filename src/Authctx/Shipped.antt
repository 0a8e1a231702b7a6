-- ===== src/Authctx/Shipped.antt =====
-- HasPermission over the shipped catalogues: the startup check passes on them, so no permission
-- skips the entitlement check.
use authentication_service.Prelude.{
  String, Bool, true, false, ◌&&◌, List, [], ◌∷◌, Option, none, some, ◌==◌, contains, eq_iff, All,
  Elem, ◌≡◌, ◌≢◌, ◌↔◌, arith, refl, Option-cases, inl, inr,
}
use authentication_service.Prelude.Dict.{lookup, All-lookup}
use authentication_service.Authctx.Product.{Product, Catalog, catalog_for, feature_for}
use authentication_service.Authctx.Catalog.Shipped.{catalogs}
use authentication_service.Authctx.Features.Registry.{sellable_features}
use authentication_service.Authctx.Features.Validate.{Problem, validate_catalogs, known_features}
use authentication_service.Authctx.Features.Gated.{validate_catalogs_iff, feature_for-IsGated}
use authentication_service.Authctx.Principal.{
  Principal, ProductAccess, has_permission, grantable_permissions,
}
use authentication_service.Authctx.Grants.{
  IsKeyed, IsGranted, Offers, has_permission_iff, has_permission-grantable_iff,
}

shipped-valid :
    (render : List Problem → String) → validate_catalogs render sellable_features catalogs ≡ none
unfolding validate_catalogs sellable_features catalogs contains
shipped-valid render = refl

is_none {ℓ} : {A : Type ℓ} → Option A → Bool
is_none none = true
is_none (some _) = false

keyed : Catalog → Bool
unfolding is_none lookup
keyed [] = true
keyed ((k, s) ∷ rest) = s.key == k && (is_none (lookup k rest) && keyed rest)

keyed_sound : (c : Catalog) → keyed c ≡ true → IsKeyed c
unfolding keyed
keyed_sound [] h = tt
keyed_sound ((k, s) ∷ rest) h = ground (arith, eq_iff s.key k, keyed_sound rest)

shipped-keyed : All (λ e. keyed e.1 ≡ true) catalogs
unfolding keyed catalogs
shipped-keyed = (refl, (refl, tt))

shipped-IsKeyed : (product : Product) → IsKeyed (catalog_for catalogs product)
unfolding catalog_for
shipped-IsKeyed product = elim (Option-cases (lookup product catalogs)) [
  | inl missing ↦ rw missing tt
  | inr (c, found) ↦
      rw found
        (keyed_sound c (All-lookup (λ c. keyed c ≡ true) product catalogs shipped-keyed found))
]

-- With the shipped catalogues, a caller who is not staff performs an action only on an access that
-- grants it and holds a feature that gates it: the gate is never empty, and the feature is one that
-- some product sells.
pub has_permission-gated :
    (p : Principal) (product : Product) (key : String)
    → p.is_platform_staff ≡ false
    → has_permission catalogs p product key ≡ true
    → (access : ProductAccess) × (lookup product p.access ≡ some access)
      × IsGranted access key
      × ((feature : String) × (feature_for catalogs product key ≡ some feature)
          × (feature ≢ "")
          × Elem feature access.features
          × Elem feature (known_features sellable_features))
has_permission-gated p product key tenant h =
    elim ((has_permission_iff catalogs p product key).0 h) [
      | inl staff ↦ absurd (ground arith)
      | inr (access, found, granted, (feature, known, entitled)) ↦
          let (gated, sold) =
            feature_for-IsGated (known_features sellable_features) catalogs product key feature
              ((validate_catalogs_iff (λ ps. "") sellable_features catalogs).0
                (shipped-valid (λ ps. "")))
              known in
          (
            access,
            found,
            granted,
            (
              feature,
              known,
              gated,
              elim entitled [ inl empty ↦ absurd (gated empty) | inr e ↦ e ],
              sold,
            ),
          )
    ]

-- With the shipped catalogues, a tenant user with access to a product may perform exactly what is
-- granted to them among the permissions that an administrator of their company may assign.
pub shipped-grantable_iff :
    (p : Principal) (product : Product) (key : String) (access : ProductAccess)
    → p.is_platform_staff ≡ false
    → lookup product p.access ≡ some access
    → (has_permission catalogs p product key ≡ true)
      ↔ (IsGranted access key × Offers key (grantable_permissions catalogs p product))
shipped-grantable_iff p product key access =
    has_permission-grantable_iff catalogs p product key access (shipped-IsKeyed product)

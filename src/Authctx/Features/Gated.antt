-- ===== src/Authctx/Features/Gated.antt =====
-- What ValidateCatalogs accepts: the startup check of internal/platform/authctx/product.go.
use authentication_service.Prelude.{
  String, List, [], ◌∷◌, ◌++◌, none, some, contains_iff, eq_iff, All, Elem, ◌≡◌, ◌≢◌, ◌∙◌, ◌↔◌,
  arith, Option-cases, inl, inr,
}
use authentication_service.Prelude.Dict.{lookup, All-lookup}
use authentication_service.Authctx.Product.{
  Product, PermissionSpec, Catalog, Catalogs, catalog_for, feature_for,
}
use authentication_service.Authctx.Features.Tables.{Feature}
use authentication_service.Authctx.Features.Validate.{
  Problem, known_features, catalog_problems, all_problems, validate_catalogs, error_of,
}

-- A permission names a gating feature, and the feature is declared.
abbrev pub IsGated : List String → PermissionSpec → Type 0
IsGated known s = (s.feature ≢ "") × Elem s.feature known

abbrev pub AllGated : List String → Catalog → Type 0
AllGated known = All (λ e. IsGated known e.1)

module _ (known : List String) where
  catalog_problems-none_iff :
      (product : Product) (c : Catalog) → (catalog_problems known product c ≡ []) ↔ AllGated known c
  unfolding catalog_problems
  catalog_problems-none_iff product [] = ground arith
  catalog_problems-none_iff product ((key, s) ∷ rest) = ground (
    arith,
    eq_iff s.feature "",
    contains_iff known s.feature,
    catalog_problems-none_iff product rest,
  )

  append-none_iff : (xs ys : List Problem) → (xs ++ ys ≡ []) ↔ ((xs ≡ []) × (ys ≡ []))
  append-none_iff [] ys = ground arith
  append-none_iff (x ∷ xs) ys = ground arith

  all_problems-none_iff :
      (cs : Catalogs) → (all_problems known cs ≡ []) ↔ All (λ e. AllGated known e.1) cs
  unfolding all_problems
  all_problems-none_iff [] = ground arith
  all_problems-none_iff ((product, c) ∷ rest) =
      let (to, from) =
        append-none_iff (catalog_problems known product c) (all_problems known rest) in
      (
        λ h.
            let (here, later) = to h in
            ((catalog_problems-none_iff product c).0 here, (all_problems-none_iff rest).0 later),
        λ h. from ((catalog_problems-none_iff product c).1 h.0, (all_problems-none_iff rest).1 h.1),
      )

  catalog_for-AllGated :
      (cs : Catalogs) (product : Product)
      → All (λ e. AllGated known e.1) cs
      → AllGated known (catalog_for cs product)
  unfolding catalog_for
  catalog_for-AllGated cs product h = elim (Option-cases (lookup product cs)) [
    | inl missing ↦ rw missing tt
    | inr (c, found) ↦ rw found (All-lookup (AllGated known) product cs h found)
  ]

  pub feature_for-IsGated :
      (cs : Catalogs) (product : Product) (key feature : String)
      → All (λ e. AllGated known e.1) cs
      → feature_for cs product key ≡ some feature
      → (feature ≢ "") × Elem feature known
  unfolding feature_for
  feature_for-IsGated cs product key feature h e =
      elim (Option-cases (lookup key (catalog_for cs product))) [
        | inl missing ↦ absurd (ground arith)
        | inr (s, listed) ↦
            let gated : IsGated known s =
              All-lookup (IsGated known) key (catalog_for cs product)
                (catalog_for-AllGated cs product h) listed in
            let same : s.feature ≡ feature = ground arith in
            (λ empty. gated.0 (same ∙ empty), rw (← same) gated.1)
      ]

error_of-none_iff :
    (render : List Problem → String) (ps : List Problem) → (error_of render ps ≡ none) ↔ (ps ≡ [])
unfolding error_of
error_of-none_iff render [] = ground arith
error_of-none_iff render (p ∷ ps) = ground arith

-- The startup check passes exactly when every entry of every catalogue names a gating feature that
-- one of the products can sell.
pub validate_catalogs_iff :
    (render : List Problem → String) (sellable : Product → List Feature) (cs : Catalogs)
    → (validate_catalogs render sellable cs ≡ none)
      ↔ All (λ e. AllGated (known_features sellable) e.1) cs
unfolding validate_catalogs
validate_catalogs_iff render sellable cs =
    let (to, from) = all_problems-none_iff (known_features sellable) cs in
    let (nil, silent) = error_of-none_iff render (all_problems (known_features sellable) cs) in
    (λ h. to (nil h), λ h. silent (from h))

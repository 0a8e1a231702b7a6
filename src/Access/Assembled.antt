-- ===== src/Access/Assembled.antt =====
-- What an assembled access lets its holder do.
use authentication_service.Prelude.{
  String, true, false, List, [], some, ◌≡◌, ◌↔◌, ◌⊎◌, refl, sym, arith, Elem, Elem-append, inl, inr,
}
use mathlib.Core.Path.{subst}
use authentication_service.Prelude.Dict.{Dict, lookup}
use authentication_service.Authctx.Product.{Catalogs, product_shared, feature_for}
use authentication_service.Authctx.Principal.{Principal, ProductAccess, has_permission}
use authentication_service.Authctx.Grants.{has_permission_iff, IsGranted, IsEntitled}
use authentication_service.Entitlement.Features.{or_no_names}
use authentication_service.Access.Assemble.{
  AccessRole, AccessExtra, place_role, place_extras, products_of, access_in, assemble,
}
use authentication_service.Access.Keys.{RoleGrants, ExtraGrants, per_product_iff, Elem-dedupe}
use authentication_service.Access.Visible.{IsVisible, products_of_iff, access_for_all-lookup}

-- The key is given to the person: by a role that grants all, by a key of the role, or by an extra.
abbrev pub IsGiven : AccessRole → List AccessExtra → String → String → Type 0
IsGiven role extras product key =
    (role.grants_all ≡ true)
    ⊎ RoleGrants product key role.permissions
    ⊎ ExtraGrants product key extras

-- The company holds the feature, in the product or as a shared one.
abbrev pub IsHeld : Dict (List String) → String → String → Type 0
IsHeld features product feature =
    Elem feature (or_no_names (lookup product features))
    ⊎ Elem feature (or_no_names (lookup "shared" features))

module _ (role : AccessRole) (extras : List AccessExtra) (features : Dict (List String))
    (product : String) where
  unfoldable pub assembled : ProductAccess
  assembled = access_in role features (place_extras (place_role [] role.permissions) extras) product

  pub assemble-lookup :
      (access : ProductAccess)
      → (lookup product (assemble role extras features) ≡ some access)
        ↔ (IsVisible role extras features product × (assembled ≡ access))
  unfolding assemble assembled
  assemble-lookup access =
      let per_product = place_extras (place_role [] role.permissions) extras in
      ground (
        arith,
        access_for_all-lookup role features per_product product (products_of features per_product),
        products_of_iff role extras features product,
      )

  assembled-IsGranted : (key : String) → IsGranted assembled key ↔ IsGiven role extras product key
  unfolding assembled access_in
  assembled-IsGranted key =
      let per_product = place_extras (place_role [] role.permissions) extras in
      ground (
        arith,
        Elem-dedupe key (or_no_names (lookup product per_product)),
        per_product_iff product key role.permissions extras,
      )

  assembled-IsEntitled :
      (feature : String)
      → IsEntitled assembled feature ↔ ((feature ≡ "") ⊎ IsHeld features product feature)
  unfolding assembled access_in
  assembled-IsEntitled feature = ground (
    arith,
    Elem-append feature (or_no_names (lookup product features))
        (or_no_names (lookup product_shared features)),
  )

  -- A caller whose access was assembled may perform an action exactly as the role, the extras and
  -- the purchases say.
  pub assemble-has_permission :
      (catalogs : Catalogs) (p : Principal) (key : String)
      → p.is_platform_staff ≡ false
      → p.access ≡ assemble role extras features
      → (has_permission catalogs p product key ≡ true) ↔ (
          IsVisible role extras features product
          × IsGiven role extras product key
          × ((feature : String) × (feature_for catalogs product key ≡ some feature)
              × ((feature ≡ "") ⊎ IsHeld features product feature)))
  assemble-has_permission catalogs p key tenant same =
      let (to, from) = has_permission_iff catalogs p product key in
      (
        λ h. elim (to h) [
          | inl staff ↦ absurd (cc (tenant, staff))
          | inr (access, found, granted, (feature, known, entitled)) ↦
              let (visible, is) = (assemble-lookup access).0 (rw same at found) in
              (
                visible,
                (assembled-IsGranted key).0 (subst (λ a. IsGranted a key) (sym is) granted),
                (
                  feature,
                  known,
                  (assembled-IsEntitled feature).0
                      (subst (λ a. IsEntitled a feature) (sym is) entitled),
                ),
              )
        ],
        λ (visible, given, (feature, known, held)). from (
            inr (
              assembled,
              rw same ((assemble-lookup assembled).1 (visible, refl)),
              (assembled-IsGranted key).1 given,
              (feature, known, (assembled-IsEntitled feature).1 held),
            )),
      )

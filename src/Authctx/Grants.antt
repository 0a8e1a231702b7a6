-- ===== src/Authctx/Grants.antt =====
-- What HasPermission decides, and that it agrees with the permissions that an administrator may
-- assign.
use authentication_service.Prelude.{
  String, true, false, not, ◌&&◌, ◌||◌, List, [], ◌∷◌, Option, none, some, ◌==◌, contains,
  contains_iff, eq_iff, Elem, Elem-keep, ◌≡◌, refl, ◌↔◌, ◌⊎◌, inl, inr, arith, Option-cases,
  Bool-cases,
}
use authentication_service.Prelude.Dict.{lookup}
use authentication_service.Authctx.Product.{
  Product, PermissionSpec, Catalog, Catalogs, catalog_for, feature_for,
}
use authentication_service.Authctx.Principal.{
  Principal, ProductAccess, has_permission, grantable_permissions, grantable_from, gate_open, specs,
}

-- A permission is granted on an access: by the role that grants all, or by its key.
abbrev pub IsGranted : ProductAccess → String → Type 0
IsGranted access key = (access.grants_all ≡ true) ⊎ Elem key access.permissions

-- The company holds the entitlement that gates a permission, or nothing gates it.
abbrev pub IsEntitled : ProductAccess → String → Type 0
IsEntitled access feature = (feature ≡ "") ⊎ Elem feature access.features

-- The three conditions on a caller who is not staff.
abbrev pub Allows : Catalogs → Principal → Product → String → Type 0
Allows catalogs p product key =
    (access : ProductAccess) × (lookup product p.access ≡ some access)
    × IsGranted access key
    × ((feature : String) × (feature_for catalogs product key ≡ some feature)
        × IsEntitled access feature)

gate_open_iff :
    (access : ProductAccess) (found : Option String)
    → (gate_open access found ≡ true)
      ↔ ((feature : String) × (found ≡ some feature) × IsEntitled access feature)
unfolding gate_open
gate_open_iff access none = ground arith
gate_open_iff access (some feature) = (
  λ h. (feature, refl, ground (arith, eq_iff feature "", contains_iff access.features feature)),
  λ (f, same, entitled). ground (arith, eq_iff feature "", contains_iff access.features feature),
)

IsGranted-iff :
    (access : ProductAccess) (key : String)
    → ((not access.grants_all && not (contains access.permissions key)) ≡ false)
      ↔ IsGranted access key
IsGranted-iff access key = ground (arith, contains_iff access.permissions key)

module _ (catalogs : Catalogs) (p : Principal) (product : Product) (key : String) where
  -- A caller may perform an action exactly when it is platform staff, or it has an access to the
  -- product on which the permission is granted, by its key or by a role that grants all, and the
  -- catalogue knows the permission and its gating feature is empty or held by the company.
  pub has_permission_iff :
      (has_permission catalogs p product key ≡ true)
      ↔ ((p.is_platform_staff ≡ true) ⊎ Allows catalogs p product key)
  unfolding has_permission
  has_permission_iff = elim (Option-cases (lookup product p.access)) [
    | inl missing ↦ rw missing (ground arith)
    | inr (access, found) ↦
        ground
          (arith, IsGranted-iff access key, gate_open_iff access (feature_for catalogs product key))
  ]

-- A catalogue lists each key once, under the key that its entry names.
abbrev pub IsKeyed : Catalog → Type 0
IsKeyed [] = Unit
IsKeyed ((k, s) ∷ rest) = (s.key ≡ k) × (lookup k rest ≡ none) × IsKeyed rest

lookup-Elem :
    (c : Catalog) (s : PermissionSpec) → IsKeyed c → Elem s (specs c) → lookup s.key c ≡ some s
unfolding lookup
lookup-Elem [] s h m = absurd m
lookup-Elem ((k, t) ∷ rest) s h (inl here) = ground (arith, eq_iff k s.key)
lookup-Elem ((k, t) ∷ rest) s h (inr later) =
    ground (arith, eq_iff k s.key, lookup-Elem rest s h.2 later)

Elem-lookup :
    (c : Catalog) (k : String) (s : PermissionSpec)
    → IsKeyed c
    → lookup k c ≡ some s
    → Elem s (specs c) × (s.key ≡ k)
unfolding lookup
Elem-lookup [] k s h e = cc
Elem-lookup ((j, t) ∷ rest) k s h e = elim (Bool-cases (j == k)) [
  | inl here ↦ ground (arith, eq_iff j k)
  | inr other ↦ let (there, same) = Elem-lookup rest k s h.2 (rw other at e) in (inr there, same)
]

-- Among the listed specs, one has the key.
abbrev pub Offers : String → List PermissionSpec → Type 0
Offers key list = (s : PermissionSpec) × Elem s list × (s.key ≡ key)

-- The test of GrantableFrom.
pass_iff :
    (held : List String) (feature : String)
    → ((feature == "" || contains held feature) ≡ true) ↔ ((feature ≡ "") ⊎ Elem feature held)
pass_iff held feature = ground (arith, eq_iff feature "", contains_iff held feature)

module _ (catalogs : Catalogs) (product : Product) (held : List String) (key : String) where
  abbrev OffersGate : Type 0
  OffersGate =
      (feature : String) × (feature_for catalogs product key ≡ some feature)
      × ((feature ≡ "") ⊎ Elem feature held)

  offered-gate :
      IsKeyed (catalog_for catalogs product)
      → Offers key (grantable_from catalogs product held)
      → OffersGate
  unfolding grantable_from feature_for
  offered-gate keyed (s, m, same) =
      let (there, pass) =
        (Elem-keep (λ t. t.feature == "" || contains held t.feature) s
            (specs (catalog_for catalogs product))).0
          m in
      (
        s.feature,
        ground (arith, lookup-Elem (catalog_for catalogs product) s keyed there),
        (pass_iff held s.feature).0 pass,
      )

  gate-offered :
      IsKeyed (catalog_for catalogs product)
      → OffersGate
      → Offers key (grantable_from catalogs product held)
  unfolding grantable_from feature_for
  gate-offered keyed (feature, known, held_too) =
      elim (Option-cases (lookup key (catalog_for catalogs product))) [
        | inl missing ↦ absurd (ground arith)
        | inr (s, found) ↦
            let (there, same) = Elem-lookup (catalog_for catalogs product) key s keyed found in
            (s, (Elem-keep _ s _).1 (there, (pass_iff held s.feature).1 (ground arith)), same)
      ]

-- A tenant user may perform exactly what is granted to them among the permissions that an
-- administrator of their company may assign.
pub has_permission-grantable_iff :
    (catalogs : Catalogs) (p : Principal) (product : Product) (key : String)
    (access : ProductAccess)
    → IsKeyed (catalog_for catalogs product)
    → p.is_platform_staff ≡ false
    → lookup product p.access ≡ some access
    → (has_permission catalogs p product key ≡ true)
      ↔ (IsGranted access key × Offers key (grantable_permissions catalogs p product))
unfolding grantable_permissions has_permission
has_permission-grantable_iff catalogs p product key access keyed tenant found =
    rw (tenant, found)
      (
        λ h.
            let granted : IsGranted access key = ground (arith, IsGranted-iff access key) in
            let gate : OffersGate catalogs product access.features key = ground (
              arith,
              IsGranted-iff access key,
              gate_open_iff access (feature_for catalogs product key),
            ) in
            (granted, gate-offered catalogs product access.features key keyed gate),
        λ (granted, offers).
            let gate = offered-gate catalogs product access.features key keyed offers in
            ground (
              arith,
              IsGranted-iff access key,
              gate_open_iff access (feature_for catalogs product key),
            ),
      )

-- ===== src/Entitlement/Purchases.antt =====
-- Which features a company holds: the two readings of an absent row (entitlementFor of
-- internal/repository/access_repository.go).
use authentication_service.Prelude.{
  contains-append, ℕ, String, Bool, true, false, List, [], ◌∷◌, ◌++◌, Option, none, some, ◌==◌,
  eq_iff, contains, if◌then◌else◌, ◌≡◌, ◌≢◌, ◌↔◌, ◌⊎◌, refl, ap, arith, Elem, Bool-cases, inl, inr,
}
use authentication_service.Prelude.Dict.{Dict, lookup, lookup-insert}
use authentication_service.Authctx.Features.Tables.{Feature}
use authentication_service.Entitlement.Rows.{CompanyModule, CompanyProductSettings}
use authentication_service.Entitlement.Features.{
  or_empty, or_no_names, modes_of, enabled_of, only_sold, all_but_withdrawn, is_withdrawn,
  is_revoke, features_in, features_for_all, put_names, keys, entitlement_for,
}
use authentication_service.Entitlement.Statements.{
  stated, mode_of, modes_of-lookup, enabled_of-lookup, enabled_of-Inner, only_sold_iff,
}

-- A feature of the catalogue that is built and bears the name.
abbrev pub IsOnSale : List Feature → String → Type 0
IsOnSale [] name = ⊥
IsOnSale (f ∷ fs) name = (f.name ≡ name) × (f.roadmap ≡ false) ⊎ IsOnSale fs name

-- A company that is opted out holds everything on sale that no current row withdraws, and any other
-- company holds what a current row grants.
abbrev pub Holds :
    (String → List Feature)
    → ℕ
    → ℕ
    → List CompanyModule
    → List CompanyProductSettings
    → String
    → String
    → Type 0
Holds sellable today company rows settings product name =
    ((mode_of company product settings ≡ some "revoke")
      × IsOnSale (sellable product) name
      × (stated today company product name rows ≢ some false))
    ⊎ ((mode_of company product settings ≢ some "revoke")
        × (stated today company product name rows ≡ some true))

all_but_withdrawn_iff :
    (held : Dict Bool) (name : String) (fs : List Feature)
    → Elem name (all_but_withdrawn held fs) ↔ (IsOnSale fs name × (lookup name held ≢ some false))
unfolding all_but_withdrawn
all_but_withdrawn_iff held name [] = (λ e. absurd e, λ h. absurd h.0)
all_but_withdrawn_iff held name (f ∷ fs) =
    let moved = ap (λ k. lookup k held) {x = f.name} {y = name} in
    elim (Bool-cases f.roadmap) [
      | inl planned ↦ rw planned (ground (arith, all_but_withdrawn_iff held name fs))
      | inr built ↦ elim (Bool-cases (is_withdrawn (lookup f.name held))) [
        | inl gone ↦ rw (built, gone) (ground (arith, all_but_withdrawn_iff held name fs, moved))
        | inr there ↦ rw (built, there) (ground (arith, all_but_withdrawn_iff held name fs, moved))
      ]
    ]

put_names-here :
    (product : String) (names : List String) (m : Dict (List String))
    → ((or_no_names (lookup product m) ≡ names) ⊎ (or_no_names (lookup product m) ≡ []))
    → or_no_names (lookup product (put_names product names m)) ≡ names
unfolding put_names
put_names-here product [] m h = ground arith
put_names-here product (name ∷ names) m h =
    ground (arith, lookup-insert product product (name ∷ names) m, eq_iff product product)

put_names-other :
    (q product : String) (names : List String) (m : Dict (List String))
    → (q == product) ≡ false
    → lookup product (put_names q names m) ≡ lookup product m
unfolding put_names
put_names-other q product [] m h = refl
put_names-other q product (name ∷ names) m h =
    ground (arith, lookup-insert q product (name ∷ names) m)

features_for_all-lookup :
    (sellable : String → List Feature) (modes : Dict String) (enabled : Dict (Dict Bool))
    (product : String) (products : List String)
    → or_no_names (lookup product (features_for_all sellable modes enabled products))
      ≡ (if contains products product then features_in sellable modes enabled product else [])
unfolding features_for_all contains lookup
features_for_all-lookup sellable modes enabled product [] = refl
features_for_all-lookup sellable modes enabled product (q ∷ qs) =
    let later = features_for_all-lookup sellable modes enabled product qs in
    let rest = features_for_all sellable modes enabled qs in
    elim (Bool-cases (q == product)) [
      | inl same ↦
          let is : q ≡ product = (eq_iff q product).0 same in
          let found : or_no_names (
                lookup product
                  (put_names product (features_in sellable modes enabled product) rest))
              ≡ features_in sellable modes enabled product =
            put_names-here product (features_in sellable modes enabled product) rest
              (ground (arith, later)) in
          rw (same, is) found
      | inr other ↦
          rw (other, put_names-other q product (features_in sellable modes enabled q) rest other)
            later
    ]

keys-missing {ℓ} :
    {V : Type ℓ} (product : String) (m : Dict V)
    → contains (keys m) product ≡ false
    → lookup product m ≡ none
unfolding contains lookup
keys-missing product [] h = refl
keys-missing product ((k, v) ∷ m) h = ground (arith, keys-missing product m)

entitlement_for-features_in :
    (sellable : String → List Feature) (today company : ℕ) (rows : List CompanyModule)
    (settings : List CompanyProductSettings) (product : String)
    → or_no_names (lookup product (entitlement_for sellable today company rows settings))
      ≡ features_in sellable
          (modes_of company [] settings)
          (enabled_of today company [] rows)
          product
unfolding entitlement_for features_in only_sold
entitlement_for-features_in sellable today company rows settings product =
    let modes = modes_of company [] settings in
    let enabled = enabled_of today company [] rows in
    let found =
      features_for_all-lookup sellable modes enabled product (keys modes ++ keys enabled) in
    elim (Bool-cases (contains (keys modes ++ keys enabled) product)) [
      | inl listed ↦ rw listed at found
      | inr unlisted ↦
          let no_mode : lookup product modes ≡ none = ground (
            arith,
            keys-missing product modes,
            contains-append (keys modes) (keys enabled) product,
          ) in
          let no_row : lookup product enabled ≡ none = ground (
            arith,
            keys-missing product enabled,
            contains-append (keys modes) (keys enabled) product,
          ) in
          rw (no_mode, no_row) (rw unlisted at found)
    ]

is_revoke_iff : (mode : Option String) → (is_revoke mode ≡ true) ↔ (mode ≡ some "revoke")
is_revoke_iff none = ground arith
is_revoke_iff (some mode) = ground (arith, eq_iff mode "revoke")

-- A company holds a feature of a product exactly when its setting for the product is the opt-out
-- mode, the feature is on sale and built, and no current row withdraws it, or it has another setting
-- or none and a current row grants it.
pub entitlement_for-Holds :
    (sellable : String → List Feature) (today company : ℕ) (rows : List CompanyModule)
    (settings : List CompanyProductSettings) (product name : String)
    → Elem name
        (or_no_names (lookup product (entitlement_for sellable today company rows settings)))
      ↔ Holds sellable today company rows settings product name
unfolding features_in lookup
entitlement_for-Holds sellable today company rows settings product name =
    let modes = modes_of company [] settings in
    let enabled = enabled_of today company [] rows in
    let held = or_empty (lookup product enabled) in
    let mode : lookup product modes ≡ mode_of company product settings =
      ground (arith, modes_of-lookup company product [] settings) in
    let state : lookup name held ≡ stated today company product name rows =
      ground (arith, enabled_of-lookup today company product name [] rows) in
    let (sold, bought) =
      only_sold_iff name held (enabled_of-Inner today company [] rows (λ p. tt) product) in
    let (kept, held_back) = all_but_withdrawn_iff held name (sellable product) in
    let is_mode = is_revoke_iff (lookup product modes) in
    rw (entitlement_for-features_in sellable today company rows settings product)
      (elim (Bool-cases (is_revoke (lookup product modes))) [
        | inl opted_out ↦ rw (opted_out) (ground (arith, kept, held_back, is_mode, mode, state))
        | inr opted_in ↦ rw (opted_in) (ground (arith, sold, bought, is_mode, mode, state))
      ])

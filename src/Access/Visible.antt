-- ===== src/Access/Visible.antt =====
-- Which products an assembled access has, and what it lets its holder do in them.
use authentication_service.Prelude.{
  String, Bool, true, false, not, ◌||◌, List, [], ◌∷◌, ◌++◌, Option, none, some, ◌==◌, eq_iff,
  contains, if◌then◌else◌, ◌≡◌, ◌≢◌, ◌↔◌, ◌⊎◌, refl, ap, arith, contains-append, contains-keep,
  keep, Option-cases, inl, inr,
}
use authentication_service.Prelude.Dict.{Dict, lookup, lookup-insert}
use authentication_service.Prelude.Text.{cut}
use authentication_service.Authctx.Product.{product_shared}
use authentication_service.Entitlement.Features.{or_no_names, keys}
use authentication_service.Access.Assemble.{
  AccessRole, AccessExtra, append_keys, place_role, place_extras, products_of, access_in,
  access_for_all,
}

-- The product is named by a key of the role, or by an extra.
abbrev pub RoleMentions : String → List String → Type 0
RoleMentions product [] = ⊥
RoleMentions product (q ∷ rest) =
    ((key : String) × (cut ":" q ≡ some (product, key))) ⊎ RoleMentions product rest

abbrev pub ExtraMentions : String → List AccessExtra → Type 0
ExtraMentions product [] = ⊥
ExtraMentions product (e ∷ rest) = (e.product ≡ product) ⊎ ExtraMentions product rest

-- A product is open to a person whose company has a feature in it, or who is given a key in it.
abbrev pub IsVisible : AccessRole → List AccessExtra → Dict (List String) → String → Type 0
IsVisible role extras features product =
    ((product ≢ "shared") × ((names : List String) × (lookup product features ≡ some names)))
    ⊎ RoleMentions product role.permissions
    ⊎ ExtraMentions product extras

abbrev pub has {ℓ} : {V : Type ℓ} → Option V → Bool
has none = false
has (some _) = true

keys-has {ℓ} :
    {V : Type ℓ} (product : String) (m : Dict V)
    → contains (keys m) product ≡ has (lookup product m)
unfolding contains lookup
keys-has product [] = refl
keys-has product ((k, v) ∷ m) = ground (arith, keys-has product m)

has-append_keys :
    (product q : String) (added : List String) (m : Dict (List String))
    → has (lookup product (append_keys q added m)) ≡ (has (lookup product m) || q == product)
unfolding append_keys
has-append_keys product q added m =
    ground (arith, lookup-insert q product (or_no_names (lookup q m) ++ added) m)

named_iff :
    (p product k : String)
    → ((key : String) × (◌≡◌ {A = Option (String × String)} (some (p, k)) (some (product, key))))
      ↔ (p ≡ product)
named_iff p product k = (λ (key, e). ground arith, λ e. (k, rw e refl))

has-place_role :
    (product : String) (m : Dict (List String)) (qs : List String)
    → (has (lookup product (place_role m qs)) ≡ true)
      ↔ ((has (lookup product m) ≡ true) ⊎ RoleMentions product qs)
unfolding place_role
has-place_role product m [] = ground arith
has-place_role product m (q ∷ qs) = elim (Option-cases (cut ":" q)) [
  | inl bare ↦ rw bare (ground (arith, has-place_role product m qs))
  | inr ((p, k), placed) ↦ rw placed (
      ground (
        arith,
        has-place_role product (append_keys p (k ∷ []) m) qs,
        has-append_keys product p (k ∷ []) m,
        eq_iff p product,
        named_iff p product k,
      ))
]

has-place_extras :
    (product : String) (m : Dict (List String)) (es : List AccessExtra)
    → (has (lookup product (place_extras m es)) ≡ true)
      ↔ ((has (lookup product m) ≡ true) ⊎ ExtraMentions product es)
unfolding place_extras
has-place_extras product m [] = ground arith
has-place_extras product m (e ∷ es) = ground (
  arith,
  has-place_extras product (append_keys e.product e.permissions m) es,
  has-append_keys product e.product e.permissions m,
  eq_iff e.product product,
)

has_iff {ℓ} : {V : Type ℓ} (found : Option V) → (has found ≡ true) ↔ ((v : V) × (found ≡ some v))
has_iff none = (λ h. absurd (cc), λ h. absurd (cc (h.1)))
has_iff (some v) = (λ h. (v, refl), λ h. refl)

pub products_of_iff :
    (role : AccessRole) (extras : List AccessExtra) (features : Dict (List String))
    (product : String)
    → (contains
          (products_of features (place_extras (place_role [] role.permissions) extras))
          product
        ≡ true)
      ↔ IsVisible role extras features product
unfolding products_of lookup
products_of_iff role extras features product =
    let per_product = place_extras (place_role [] role.permissions) extras in
    ground (
      arith,
      contains-append (keep (λ p. not (p == product_shared)) (keys features)) (keys per_product)
          product,
      contains-keep (λ p. not (p == product_shared)) (keys features) product,
      keys-has product features,
      keys-has product per_product,
      has_iff (lookup product features),
      has-place_extras product (place_role [] role.permissions) extras,
      has-place_role product [] role.permissions,
      eq_iff product product_shared,
    )

pub access_for_all-lookup :
    (role : AccessRole) (features per_product : Dict (List String)) (product : String)
    (ps : List String)
    → lookup product (access_for_all role features per_product ps)
      ≡ (if contains ps product then some (access_in role features per_product product) else none)
unfolding access_for_all contains lookup
access_for_all-lookup role features per_product product [] = refl
access_for_all-lookup role features per_product product (p ∷ ps) = ground (
  arith,
  lookup-insert p product (access_in role features per_product p)
      (access_for_all role features per_product ps),
  access_for_all-lookup role features per_product product ps,
  eq_iff p product,
  ap (access_in role features per_product) {x = p} {y = product},
)

-- ===== src/Access/Keys.antt =====
-- Which keys a person holds in a product: those of the role under the product's name, and those of
-- the extras in the product.
use authentication_service.Prelude.{
  String, false, List, [], ◌∷◌, ◌++◌, some, eq_iff, contains, ◌≡◌, ◌↔◌, ◌⊎◌, ap, arith, Elem,
  Elem-append, Bool-cases, Option-cases, inl, inr,
}
use authentication_service.Prelude.Dict.{Dict, lookup, lookup-insert}
use authentication_service.Prelude.Text.{cut}
use authentication_service.Entitlement.Features.{or_no_names}
use authentication_service.Access.Assemble.{
  AccessExtra, append_keys, place_role, place_extras, dedupe_from, dedupe,
}

-- A key of the role under the product's name, such as "tms:order.read" for order.read in tms.
abbrev pub RoleGrants : String → String → List String → Type 0
RoleGrants product key [] = ⊥
RoleGrants product key (q ∷ rest) = (cut ":" q ≡ some (product, key)) ⊎ RoleGrants product key rest

-- A key of an extra in the product.
abbrev pub ExtraGrants : String → String → List AccessExtra → Type 0
ExtraGrants product key [] = ⊥
ExtraGrants product key (e ∷ rest) =
    (e.product ≡ product) × Elem key e.permissions ⊎ ExtraGrants product key rest

append_keys_iff :
    (product key : String) (q : String) (added : List String) (m : Dict (List String))
    → Elem key (or_no_names (lookup product (append_keys q added m)))
      ↔ (Elem key (or_no_names (lookup product m)) ⊎ (q ≡ product) × Elem key added)
unfolding append_keys
append_keys_iff product key q added m = ground (
  arith,
  lookup-insert q product (or_no_names (lookup q m) ++ added) m,
  eq_iff q product,
  Elem-append key (or_no_names (lookup q m)) added,
  ap (λ k. lookup k m) {x = q} {y = product},
)

place_role_iff :
    (product key : String) (m : Dict (List String)) (qs : List String)
    → Elem key (or_no_names (lookup product (place_role m qs)))
      ↔ (Elem key (or_no_names (lookup product m)) ⊎ RoleGrants product key qs)
unfolding place_role
place_role_iff product key m [] = ground arith
place_role_iff product key m (q ∷ qs) = elim (Option-cases (cut ":" q)) [
  | inl bare ↦ rw bare (ground (arith, place_role_iff product key m qs))
  | inr ((p, k), placed) ↦ rw placed (
      ground (
        arith,
        place_role_iff product key (append_keys p (k ∷ []) m) qs,
        append_keys_iff product key p (k ∷ []) m,
      ))
]

pub place_extras_iff :
    (product key : String) (m : Dict (List String)) (es : List AccessExtra)
    → Elem key (or_no_names (lookup product (place_extras m es)))
      ↔ (Elem key (or_no_names (lookup product m)) ⊎ ExtraGrants product key es)
unfolding place_extras
place_extras_iff product key m [] = ground arith
place_extras_iff product key m (e ∷ es) = ground (
  arith,
  place_extras_iff product key (append_keys e.product e.permissions m) es,
  append_keys_iff product key e.product e.permissions m,
)

-- The keys of a product are those of the role and of the extras.
pub per_product_iff :
    (product key : String) (qs : List String) (es : List AccessExtra)
    → Elem key (or_no_names (lookup product (place_extras (place_role [] qs) es)))
      ↔ (RoleGrants product key qs ⊎ ExtraGrants product key es)
unfolding lookup
per_product_iff product key qs es =
    ground
      (arith, place_extras_iff product key (place_role [] qs) es, place_role_iff product key [] qs)

dedupe_from_iff :
    (v : String) (seen xs : List String)
    → Elem v (dedupe_from seen xs) ↔ (Elem v xs × (contains seen v ≡ false))
unfolding dedupe_from contains
dedupe_from_iff v seen [] = ground arith
dedupe_from_iff v seen (x ∷ xs) = elim (Bool-cases (contains seen x)) [
  | inl again ↦
      rw (again, Elem)
        (ground (arith, dedupe_from_iff v seen xs, ap (contains seen) {x = x} {y = v}))
  | inr fresh ↦
      rw (fresh, Elem)
        (ground
          (arith, dedupe_from_iff v (x ∷ seen) xs, eq_iff x v, ap (contains seen) {x = x} {y = v}))
]

-- No value is lost and none is added.
pub Elem-dedupe : (v : String) (xs : List String) → Elem v (dedupe xs) ↔ Elem v xs
unfolding dedupe contains
Elem-dedupe v xs = ground (arith, dedupe_from_iff v [] xs)

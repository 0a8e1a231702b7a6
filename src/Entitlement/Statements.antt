-- ===== src/Entitlement/Statements.antt =====
-- What the rows of a company state, as the nested map of entitlementFor keeps it.
use authentication_service.Prelude.{
  ℕ, String, Bool, true, ◌&&◌, List, [], ◌∷◌, Option, none, some, ◌==◌, eq_iff, nat_eq,
  if◌then◌else◌, ◌≡◌, ◌↔◌, refl, ap, arith, Elem, Bool-cases, inl, inr,
}
use authentication_service.Prelude.Dict.{Dict, lookup, insert, remove, lookup-insert, lookup-remove}
use authentication_service.Entitlement.Rows.{CompanyModule, CompanyProductSettings, is_current}
use authentication_service.Entitlement.Features.{or_empty, modes_of, state, enabled_of, only_sold}

-- A later answer, if there is one.
abbrev pub or_else {ℓ} : {V : Type ℓ} → Option V → Option V → Option V
or_else none before = before
or_else (some later) before = some later

-- The last current row of a company on a module.
unfoldable pub stated : ℕ → ℕ → String → String → List CompanyModule → Option Bool
stated today company product name [] = none
stated today company product name (row ∷ rows) = or_else (stated today company product name rows) (
    if is_current today company row && (row.product == product && row.name == name)
    then some row.enabled
    else none)

-- The last setting of a company for a product.
unfoldable pub mode_of : ℕ → String → List CompanyProductSettings → Option String
mode_of company product [] = none
mode_of company product (row ∷ rows) = or_else (mode_of company product rows) (
    if nat_eq row.company_id company && row.product == product
    then some row.entitlement_mode
    else none)

pub modes_of-lookup :
    (company : ℕ) (product : String) (m : Dict String) (rows : List CompanyProductSettings)
    → lookup product (modes_of company m rows)
      ≡ or_else (mode_of company product rows) (lookup product m)
unfolding modes_of mode_of
modes_of-lookup company product m [] = refl
modes_of-lookup company product m (row ∷ rows) = elim (Bool-cases (nat_eq row.company_id company)) [
  | inl mine ↦ rw mine (
      ground (
        arith,
        modes_of-lookup company product (insert row.product row.entitlement_mode m) rows,
        lookup-insert row.product product row.entitlement_mode m,
      ))
  | inr other ↦ rw other (ground (arith, modes_of-lookup company product m rows))
]

lookup-state :
    (product name : String) (row : CompanyModule) (m : Dict (Dict Bool))
    → lookup name (or_empty (lookup product (state row m))) ≡ (
        if row.product == product && row.name == name
        then some row.enabled
        else lookup name (or_empty (lookup product m)))
unfolding state
lookup-state product name row m = ground (
  arith,
  lookup-insert row.product product (insert row.name row.enabled (or_empty (lookup row.product m)))
      m,
  lookup-insert row.name name row.enabled (or_empty (lookup row.product m)),
  eq_iff row.product product,
  ap (λ k. lookup k m) {x = row.product} {y = product},
)

pub enabled_of-lookup :
    (today company : ℕ) (product name : String) (m : Dict (Dict Bool)) (rows : List CompanyModule)
    → lookup name (or_empty (lookup product (enabled_of today company m rows)))
      ≡ or_else (stated today company product name rows) (lookup name (or_empty (lookup product m)))
unfolding enabled_of stated
enabled_of-lookup today company product name m [] = refl
enabled_of-lookup today company product name m (row ∷ rows) =
    elim (Bool-cases (is_current today company row)) [
      | inl current ↦ rw current (
          ground (
            arith,
            enabled_of-lookup today company product name (state row m) rows,
            lookup-state product name row m,
          ))
      | inr other ↦ rw other (ground (arith, enabled_of-lookup today company product name m rows))
    ]

-- A map that holds each key once.
abbrev pub NoDup : Dict Bool → Type 0
NoDup [] = Unit
NoDup ((k, v) ∷ m) = (lookup k m ≡ none) × NoDup m

remove-NoDup : (k : String) (m : Dict Bool) → NoDup m → NoDup (remove k m)
unfolding remove
remove-NoDup k [] h = tt
remove-NoDup k ((j, v) ∷ m) h = ground (arith, remove-NoDup k m h.1, lookup-remove k j m)

insert-NoDup : (k : String) (v : Bool) (m : Dict Bool) → NoDup m → NoDup (insert k v m)
unfolding insert
insert-NoDup k v m h = (ground (arith, lookup-remove k k m, eq_iff k k), remove-NoDup k m h)

abbrev pub Inner : Dict (Dict Bool) → Type 0
Inner m = (product : String) → NoDup (or_empty (lookup product m))

state-Inner : (row : CompanyModule) (m : Dict (Dict Bool)) → Inner m → Inner (state row m)
unfolding state
state-Inner row m h product = elim (Bool-cases (row.product == product)) [
  | inl same ↦
      rw
        (
          lookup-insert row.product product
              (insert row.name row.enabled (or_empty (lookup row.product m))) m,
          same,
        )
        (insert-NoDup row.name row.enabled (or_empty (lookup row.product m)) (h row.product))
  | inr other ↦
      rw
        (
          lookup-insert row.product product
              (insert row.name row.enabled (or_empty (lookup row.product m))) m,
          other,
        )
        (h product)
]

pub enabled_of-Inner :
    (today company : ℕ) (m : Dict (Dict Bool)) (rows : List CompanyModule)
    → Inner m
    → Inner (enabled_of today company m rows)
unfolding enabled_of
enabled_of-Inner today company m [] h = h
enabled_of-Inner today company m (row ∷ rows) h = elim (Bool-cases (is_current today company row)) [
  | inl current ↦
      rw current (enabled_of-Inner today company (state row m) rows (state-Inner row m h))
  | inr other ↦ rw other (enabled_of-Inner today company m rows h)
]

-- What was sold is what is stated as on.
pub only_sold_iff :
    (name : String) (m : Dict Bool)
    → NoDup m
    → Elem name (only_sold m) ↔ (lookup name m ≡ some true)
unfolding only_sold lookup
only_sold_iff name [] h = ground arith
only_sold_iff name ((k, on) ∷ m) h = elim (Bool-cases on) [
  | inl sold ↦ rw sold (
      ground
        (arith, only_sold_iff name m h.1, eq_iff k name, ap (λ j. lookup j m) {x = k} {y = name}))
  | inr withdrawn ↦ rw withdrawn (
      ground
        (arith, only_sold_iff name m h.1, eq_iff k name, ap (λ j. lookup j m) {x = k} {y = name}))
]

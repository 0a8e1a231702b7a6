-- ===== src/Entitlement/Features.antt =====
-- entitlementFor (internal/repository/access_repository.go), for queries that succeed: which features a
-- company holds, in each product. `sellable` is authctx.SellableFeatures.
use authentication_service.Prelude.{
  ℕ, String, Bool, false, not, List, [], ◌∷◌, ◌++◌, map, Option, none, some, ◌==◌, nat_eq,
  if◌then◌else◌,
}
use authentication_service.Prelude.Dict.{Dict, lookup, insert}
use authentication_service.Authctx.Features.Tables.{Feature}
use authentication_service.Entitlement.Rows.{CompanyModule, CompanyProductSettings, is_current}

abbrev pub entitlement_revoke : String
entitlement_revoke = "revoke"

abbrev pub or_empty {ℓ} : {V : Type ℓ} → Option (Dict V) → Dict V
or_empty none = []
or_empty (some m) = m

abbrev pub or_no_names : Option (List String) → List String
or_no_names none = []
or_no_names (some names) = names

-- `mode[m.Product] = m.EntitlementMode`, for the company's settings.
unfoldable pub modes_of : ℕ → Dict String → List CompanyProductSettings → Dict String
unfolding insert
modes_of company m [] = m
modes_of company m (row ∷ rows) =
    modes_of company
      (if nat_eq row.company_id company then insert row.product row.entitlement_mode m else m) rows

-- `enabled[row.Product][row.Module] = row.Enabled`
unfoldable pub state : CompanyModule → Dict (Dict Bool) → Dict (Dict Bool)
unfolding insert lookup
state row m = insert row.product (insert row.name row.enabled (or_empty (lookup row.product m))) m

-- The loop over the rows that the query returns.
unfoldable pub enabled_of : ℕ → ℕ → Dict (Dict Bool) → List CompanyModule → Dict (Dict Bool)
unfolding state is_current
enabled_of today company m [] = m
enabled_of today company m (row ∷ rows) =
    enabled_of today company (if is_current today company row then state row m else m) rows

-- `disabled, stated := enabled[product][f.Name]; stated && !disabled`
abbrev pub is_withdrawn : Option Bool → Bool
is_withdrawn none = false
is_withdrawn (some on) = not on

-- Everything sellable, less whatever was withdrawn.
unfoldable pub all_but_withdrawn : Dict Bool → List Feature → List String
unfolding lookup
all_but_withdrawn stated [] = []
all_but_withdrawn stated (f ∷ fs) =
    let rest = all_but_withdrawn stated fs in
    if f.roadmap then rest else if is_withdrawn (lookup f.name stated) then rest else f.name ∷ rest

-- Only what was sold.
unfoldable pub only_sold : Dict Bool → List String
only_sold [] = []
only_sold ((name, on) ∷ stated) = let rest = only_sold stated in if on then name ∷ rest else rest

-- The switch on the product's mode; a product without settings has the empty mode.
abbrev pub is_revoke : Option String → Bool
is_revoke none = false
is_revoke (some mode) = mode == entitlement_revoke

-- `features[product] = append(…)`, which makes an entry at the first name.
unfoldable pub put_names : String → List String → Dict (List String) → Dict (List String)
unfolding insert
put_names product [] features = features
put_names product (name ∷ names) features = insert product (name ∷ names) features

module _ (sellable : String → List Feature) (modes : Dict String) (enabled : Dict (Dict Bool)) where
  unfoldable pub features_in : String → List String
  unfolding all_but_withdrawn only_sold lookup
  features_in product =
      if is_revoke (lookup product modes)
      then all_but_withdrawn (or_empty (lookup product enabled)) (sellable product)
      else only_sold (or_empty (lookup product enabled))

  -- The loop over the products; a product with no feature gets no entry.
  unfoldable pub features_for_all : List String → Dict (List String)
  unfolding put_names
  features_for_all [] = []
  features_for_all (product ∷ products) =
      put_names product (features_in product) (features_for_all products)

-- The products with a mode or a row.
abbrev pub keys {ℓ} : {V : Type ℓ} → Dict V → List String
keys = map (λ e. e.0)

-- entitlementFor
unfoldable pub entitlement_for :
    (String → List Feature)
    → ℕ
    → ℕ
    → List CompanyModule
    → List CompanyProductSettings
    → Dict (List String)
unfolding features_for_all modes_of enabled_of
entitlement_for sellable today company rows settings =
    let modes = modes_of company [] settings in
    let enabled = enabled_of today company [] rows in
    features_for_all sellable modes enabled (keys modes ++ keys enabled)

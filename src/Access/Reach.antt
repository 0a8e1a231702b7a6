-- ===== src/Access/Reach.antt =====
-- What a token lets its holder do, from the rows of the database.
use authentication_service.Prelude.{
  ℕ, String, Bool, true, false, List, ◌++◌, Option, none, some, ◌≡◌, ◌↔◌, ◌⊎◌, refl, ap, ◌∙◌, Elem,
  inl, inr,
}
use mathlib.Core.Path.{subst}
use authentication_service.Prelude.Dict.{Dict, lookup}
use authentication_service.Authctx.Product.{Catalogs, product_shared, feature_for}
use authentication_service.Authctx.Principal.{Principal, ProductAccess, has_permission}
use authentication_service.Authctx.Features.Tables.{Feature}
use authentication_service.Entitlement.Features.{or_no_names, entitlement_for}
use authentication_service.Entitlement.Purchases.{Holds, entitlement_for-Holds}
use authentication_service.Access.Assemble.{AccessRole, AccessExtra, access_in, assemble}
use authentication_service.Access.Visible.{IsVisible}
use authentication_service.Access.Build.{
  AccessTables, joined_role, build_access, build_for, extras_of, features_of, active_for_company,
  no_role,
}
use authentication_service.Access.Assembled.{
  IsGiven, assemble-lookup, assemble-has_permission, assembled,
}

-- The role and the extras that BuildAccess finds for a person who is not staff.
abbrev pub role_found : Option (AccessRole × Bool) → AccessRole
role_found none = no_role
role_found (some (role, staff)) = role

abbrev pub staff_found : Option (AccessRole × Bool) → Bool
staff_found none = false
staff_found (some (role, staff)) = staff

-- A current row, a sale or an opt-out lets the company have the feature, in the product or shared.
abbrev pub CompanyHolds : (String → List Feature) → ℕ → AccessTables → ℕ → String → String → Type 0
CompanyHolds sellable today t company product feature =
    Holds sellable today company t.modules t.settings product feature
    ⊎ Holds sellable today company t.modules t.settings "shared" feature

build_for-assemble :
    (sort : List String → List String) (sellable : String → List Feature)
    (extras : List AccessExtra) (features : Dict (List String)) (found : Option (AccessRole × Bool))
    → staff_found found ≡ false
    → build_for sort sellable extras features found ≡ assemble (role_found found) extras features
unfolding build_for
build_for-assemble sort sellable extras features none h = refl
build_for-assemble sort sellable extras features (some (role, true)) h = absurd (cc)
build_for-assemble sort sellable extras features (some (role, false)) h = refl

build_access-assemble :
    (sort : List String → List String) (sellable : String → List Feature) (today : ℕ)
    (t : AccessTables) (user_id : ℕ) (company : Option ℕ)
    → staff_found (joined_role t user_id) ≡ false
    → build_access sort sellable today t user_id company
      ≡ assemble
          (role_found (joined_role t user_id))
          (extras_of user_id t.extras)
          (features_of sellable today t company)
unfolding build_access
build_access-assemble sort sellable today t user_id company =
    build_for-assemble sort sellable (extras_of user_id t.extras)
      (features_of sellable today t company) (joined_role t user_id)

-- From the rows of the database to a permission: the holder of a token whose access was built for a
-- company's user who is not staff may perform an action exactly when the product is open to them,
-- the key is given to them by their role or by an extra, and the company holds the feature that
-- gates it, in the product or as a shared one.
pub build_access-has_permission :
    (sort : List String → List String) (sellable : String → List Feature) (today : ℕ)
    (t : AccessTables) (user_id company : ℕ) (catalogs : Catalogs) (p : Principal)
    (product key : String)
    → staff_found (joined_role t user_id) ≡ false
    → p.is_platform_staff ≡ false
    → p.access ≡ build_access sort sellable today t user_id (some company)
    → (has_permission catalogs p product key ≡ true) ↔ (
        IsVisible
          (role_found (joined_role t user_id))
          (extras_of user_id t.extras)
          (entitlement_for sellable today company t.modules t.settings)
          product
        × IsGiven (role_found (joined_role t user_id)) (extras_of user_id t.extras) product key
        × ((feature : String) × (feature_for catalogs product key ≡ some feature)
            × ((feature ≡ "") ⊎ CompanyHolds sellable today t company product feature)))
build_access-has_permission sort sellable today t user_id company catalogs p product key tenant
      member same =
    let features = entitlement_for sellable today company t.modules t.settings in
    let built = same ∙ build_access-assemble sort sellable today t user_id (some company) tenant in
    let (to, from) =
      assemble-has_permission (role_found (joined_role t user_id)) (extras_of user_id t.extras)
        features product catalogs p key member built in
    let held =
      λ (f : String). entitlement_for-Holds sellable today company t.modules t.settings product f in
    let shared = λ (f : String).
      entitlement_for-Holds sellable today company t.modules t.settings "shared" f in
    (
      λ h.
          let (visible, given, (f, known, has)) = to h in
          (
            visible,
            given,
            (
              f,
              known,
              elim has [
                | inl bare ↦ inl bare
                | inr e ↦ inr (elim e [
                  | inl here ↦ inl ((held f).0 here)
                  | inr there ↦ inr ((shared f).0 there)
                ])
              ],
            ),
          ),
      λ (visible, given, (f, known, has)). from (
        visible,
        given,
        (
          f,
          known,
          elim has [
            | inl bare ↦ inl bare
            | inr e ↦
                inr (elim e [
                  | inl here ↦ inl ((held f).1 here)
                  | inr there ↦ inr ((shared f).1 there)
                ])
          ],
        ),
      ),
    )

-- The administration screen and the token agree: with a sort that keeps the elements of a list, the
-- screen shows a module as held exactly when a token built for a person of the company carries it,
-- in each product that the token has.
pub active_for_company-build_access :
    (sort : List String → List String) (sellable : String → List Feature) (today : ℕ)
    (t : AccessTables) (user_id company : ℕ) (product name : String) (access : ProductAccess)
    → ((v : String) (xs : List String) → Elem v (sort xs) ↔ Elem v xs)
    → staff_found (joined_role t user_id) ≡ false
    → lookup product (build_access sort sellable today t user_id (some company)) ≡ some access
    → Elem name (active_for_company sort sellable today t company product)
      ↔ Elem name access.features
unfolding active_for_company access_in assembled
active_for_company-build_access sort sellable today t user_id company product name access sorts
      tenant found =
    let role = role_found (joined_role t user_id) in
    let extras = extras_of user_id t.extras in
    let features = entitlement_for sellable today company t.modules t.settings in
    let built = build_access-assemble sort sellable today t user_id (some company) tenant in
    let is = ((assemble-lookup role extras features product access).0 (rw built at found)).1 in
    let held : or_no_names (lookup product features) ++ or_no_names (lookup product_shared features)
        ≡ access.features =
      ap (λ (a : ProductAccess). a.features) is in
    subst
      (λ fs. Elem name (active_for_company sort sellable today t company product) ↔ Elem name fs)
      held
      (sorts name
        (or_no_names (lookup product features) ++ or_no_names (lookup product_shared features)))

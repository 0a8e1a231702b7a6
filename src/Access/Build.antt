-- ===== src/Access/Build.antt =====
-- BuildAccess, BuildAccessForRole and staffAccess (internal/repository/access_repository.go), for
-- queries that succeed. `sort` stands for sort.Strings, and `sellable` is authctx.SellableFeatures.
use authentication_service.Prelude.{
  ℕ, String, Bool, true, false, not, ◌&&◌, List, [], ◌∷◌, ◌++◌, Option, none, some, ◌==◌, nat_eq,
  map, keep, if◌then◌else◌,
}
use authentication_service.Prelude.Dict.{Dict}
use authentication_service.Authctx.Product.{product_tms, product_fms, product_shared}
use authentication_service.Authctx.Principal.{ProductAccess}
use authentication_service.Authctx.Features.Tables.{Feature}
use authentication_service.Entitlement.Rows.{CompanyModule, CompanyProductSettings}
use authentication_service.Entitlement.Features.{entitlement_for, or_no_names}
use authentication_service.Prelude.Dict.{lookup}
use authentication_service.Auth.Sessions.{first}
use authentication_service.Access.Assemble.{AccessRole, AccessExtra, assemble}

-- The columns of users, roles and user_product_access that are read.
pub record Person : Type 0 where
  pub id : ℕ
  pub role_id : Option ℕ
  pub is_platform_staff : Bool

pub record RoleRow : Type 0 where
  pub id : ℕ
  pub company_id : ℕ
  pub role : AccessRole

pub record ExtraRow : Type 0 where
  pub user_id : ℕ
  pub extra : AccessExtra
  pub enabled : Bool

pub record AccessTables : Type 0 where
  pub users : List Person
  pub roles : List RoleRow
  pub extras : List ExtraRow
  pub modules : List CompanyModule
  pub settings : List CompanyProductSettings

-- The value that a query with no row leaves.
abbrev pub no_role : AccessRole
no_role = record { name = ""; grants_all = false; permissions = [] }

abbrev pub role_or_none : Option RoleRow → AccessRole
role_or_none none = no_role
role_or_none (some row) = row.role

unfoldable pub find_role : List RoleRow → ℕ → Option RoleRow
unfolding first
find_role roles id = first (λ r. nat_eq r.id id) roles

-- `users u JOIN roles r ON r.id = u.role_id WHERE u.id = ?`
abbrev pub with_role : List RoleRow → Person → Option ℕ → Option (AccessRole × Bool)
with_role roles u none = none
with_role roles u (some id) = elim (find_role roles id) [
  | none ↦ none
  | some row ↦ some (row.role, u.is_platform_staff)
]

unfoldable pub joined_role : AccessTables → ℕ → Option (AccessRole × Bool)
unfolding first find_role
joined_role t user_id = elim (first (λ u. nat_eq u.id user_id) t.users) [
  | none ↦ none
  | some u ↦ with_role t.roles u u.role_id
]

-- `WHERE user_id = ? AND enabled`
unfoldable pub extras_of : ℕ → List ExtraRow → List AccessExtra
extras_of user_id [] = []
extras_of user_id (row ∷ rows) =
    let rest = extras_of user_id rows in
    if nat_eq row.user_id user_id && row.enabled then row.extra ∷ rest else rest

-- The entitlement of the company, if the person has one.
abbrev pub features_of : (String → List Feature) → ℕ → AccessTables → Option ℕ → Dict (List String)
features_of sellable today t none = []
features_of sellable today t (some company) =
    entitlement_for sellable today company t.modules t.settings

module _ (sort : List String → List String) (sellable : String → List Feature) where
  unfoldable pub staff_product : String → String → ProductAccess
  staff_product name product = record {
    role = name;
    permissions = [];
    features = sort (map (λ f. f.name) (keep (λ f. not f.roadmap) (sellable product)));
    grants_all = true;
  }

  -- staffAccess
  unfoldable pub staff_access : String → Dict ProductAccess
  unfolding staff_product
  staff_access role_name =
      let name = if role_name == "" then "Platform Staff" else role_name in
      (product_tms, staff_product name product_tms)
      ∷ (product_fms, staff_product name product_fms)
      ∷ []

  -- BuildAccess, once the role has been looked up.
  unfoldable pub build_for :
      List AccessExtra → Dict (List String) → Option (AccessRole × Bool) → Dict ProductAccess
  unfolding staff_access assemble
  build_for extras features none = assemble no_role extras features
  build_for extras features (some (role, true)) = staff_access role.name
  build_for extras features (some (role, false)) = assemble role extras features

  -- BuildAccess
  unfoldable pub build_access : ℕ → AccessTables → ℕ → Option ℕ → Dict ProductAccess
  unfolding joined_role build_for extras_of entitlement_for
  build_access today t user_id company =
      build_for (extras_of user_id t.extras) (features_of sellable today t company)
        (joined_role t user_id)

  -- BuildAccessForRole
  unfoldable pub build_access_for_role : ℕ → AccessTables → ℕ → Option ℕ → Dict ProductAccess
  unfolding find_role assemble entitlement_for
  build_access_for_role today t role_id company =
      assemble (role_or_none (find_role t.roles role_id)) [] (features_of sellable today t company)

  -- ActiveForCompany
  unfoldable pub active_for_company : ℕ → AccessTables → ℕ → String → List String
  unfolding entitlement_for lookup
  active_for_company today t company product =
      let features = entitlement_for sellable today company t.modules t.settings in
      sort (or_no_names (lookup product features) ++ or_no_names (lookup product_shared features))

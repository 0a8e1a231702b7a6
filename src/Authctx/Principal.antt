-- ===== src/Authctx/Principal.antt =====
-- The authenticated caller and the checks on it: claims.go and principal.go of
-- internal/platform/authctx. `catalogs` is the package's variable of that name, and `service` is
-- `serviceProduct`, which a service's main sets once.
use authentication_service.Prelude.{
  ℕ, String, Bool, true, false, not, ◌&&◌, ◌||◌, List, [], Option, none, some, map, ◌==◌, contains,
  keep, any, if◌then◌else◌,
}
use Prim.Native.String.{◌++◌}
use authentication_service.Prelude.Dict.{Dict, lookup}
use authentication_service.Authctx.Product.{
  Product, PermissionSpec, Catalog, Catalogs, catalog_for, feature_for, features_for,
}

pub record ProductAccess : Type 0 where
  pub role : String
  pub permissions : List String
  pub features : List String
  pub grants_all : Bool

-- `fms_tenant_id` and `fms_user_id` are identities, with zero for none.
pub record Principal : Type 0 where
  pub user_id : String
  pub company_id : String
  pub fms_tenant_id : ℕ
  pub fms_user_id : ℕ
  pub is_platform_staff : Bool
  pub access : Dict ProductAccess
  pub single_device : Bool
  pub token_id : String

-- The zero `Principal{}`.
abbrev pub no_principal : Principal
no_principal = record {
  user_id = "";
  company_id = "";
  fms_tenant_id = 0;
  fms_user_id = 0;
  is_platform_staff = false;
  access = [];
  single_device = false;
  token_id = "";
}

-- What a granted key, on an access that has the product, still needs of the catalogue.
unfoldable pub gate_open : ProductAccess → Option String → Bool
gate_open access none = false
gate_open access (some feature) = if feature == "" then true else contains access.features feature

-- The values of a catalogue, in its iteration order.
abbrev pub specs : Catalog → List PermissionSpec
specs = map (λ e. e.1)

-- HasProduct
unfoldable pub has_product : Principal → Product → Bool
unfolding lookup
has_product p product =
    if p.is_platform_staff
    then true
    else elim (lookup product p.access) [ none ↦ false | some _ ↦ true ]

-- RoleIn: the zero access has the empty role.
unfoldable pub role_in : Principal → Product → String
unfolding lookup
role_in p product = elim (lookup product p.access) [ none ↦ "" | some access ↦ access.role ]

-- CompanyHasFeature
unfoldable pub company_has_feature : Principal → Product → String → Bool
unfolding lookup
company_has_feature p product feature =
    if p.is_platform_staff then true else elim (lookup product p.access) [
      | none ↦ false
      | some access ↦ contains access.features feature
    ]

-- HasRole, in the service's product.
unfoldable pub has_role : Product → Principal → List String → Bool
unfolding role_in
has_role service p roles =
    if p.is_platform_staff
    then true
    else if role_in p service == ""
    then false
    else any (λ r. role_in p service == r) roles

module _ (catalogs : Catalogs) where
  -- HasPermission
  unfoldable pub has_permission : Principal → Product → String → Bool
  unfolding gate_open
  has_permission p product key =
      if p.is_platform_staff then true else elim (lookup product p.access) [
        | none ↦ false
        | some access ↦
            if not access.grants_all && not (contains access.permissions key)
            then false
            else gate_open access (feature_for catalogs product key)
      ]

  -- HasModule, in the service's product.
  unfoldable pub has_module : Product → Principal → String → String → Bool
  unfolding has_permission
  has_module service p module_name action =
      has_permission p service (module_name ++ ("." ++ action))

  -- GrantableFrom: the catalogue narrowed to the features held.
  unfoldable pub grantable_from : Product → List String → List PermissionSpec
  grantable_from product held =
      keep (λ s. s.feature == "" || contains held s.feature) (specs (catalog_for catalogs product))

  -- GrantablePermissions
  unfoldable pub grantable_permissions : Principal → Product → List PermissionSpec
  unfolding grantable_from
  grantable_permissions p product =
      if p.is_platform_staff
      then grantable_from product (features_for catalogs product)
      else elim (lookup product p.access) [
        | none ↦ []
        | some access ↦ grantable_from product access.features
      ]

-- ===== src/Access/Tests.antt =====
-- A person with a role and an extra, in a company with one module.
use authentication_service.Prelude.{
  String, List, [], ◌∷◌, none, some, true, false, ◌≡◌, ◌↔◌, ◌⊎◌, refl,
}
use authentication_service.Authctx.Product.{feature_for}
use authentication_service.Authctx.Principal.{Principal, has_permission}
use authentication_service.Authctx.Features.Tables.{Feature}
use authentication_service.Authctx.Catalog.Shipped.{catalogs}
use authentication_service.Entitlement.Features.{entitlement_for}
use authentication_service.Auth.Sessions.{first}
use authentication_service.Access.Assemble.{AccessRole}
use authentication_service.Access.Build.{
  AccessTables, joined_role, find_role, build_access, extras_of,
}
use authentication_service.Access.Visible.{IsVisible}
use authentication_service.Access.Assembled.{IsGiven}
use authentication_service.Access.Reach.{CompanyHolds, build_access-has_permission}

abbrev sold_in : String → List Feature
sold_in product =
    record { name = "reports"; owner = "fms"; description = ""; parent = ""; roadmap = false } ∷ []

abbrev planner : AccessRole
planner = record { name = "Planner"; grants_all = false; permissions = "tms:order.read" ∷ [] }

abbrev tables : AccessTables
tables = record {
  users = record { id = 7; role_id = some 2; is_platform_staff = false } ∷ [];
  roles = record { id = 2; company_id = 1; role = planner } ∷ [];
  extras =
      record {
        user_id = 7;
        extra = record { product = "tms"; permissions = "order.write" ∷ [] };
        enabled = true;
      }
      ∷ [];
  modules =
      record {
        company_id = 1;
        product = "tms";
        name = "orders";
        enabled = true;
        valid_from = none;
        valid_until = some 30;
      }
      ∷ [];
  settings = [];
}

abbrev same : List String → List String
same xs = xs

abbrev holder : Principal
holder = record {
  user_id = "7";
  company_id = "1";
  fms_tenant_id = 0;
  fms_user_id = 0;
  is_platform_staff = false;
  access = build_access same sold_in 20 tables 7 (some 1);
  single_device = false;
  token_id = "";
}

build_access-has_permission_example :
    (has_permission catalogs holder "tms" "order.write" ≡ true) ↔ (
      IsVisible planner
        (record { product = "tms"; permissions = "order.write" ∷ [] } ∷ [])
        (entitlement_for sold_in 20 1 tables.modules tables.settings)
        "tms"
      × IsGiven planner
          (record { product = "tms"; permissions = "order.write" ∷ [] } ∷ [])
          "tms"
          "order.write"
      × ((feature : String) × (feature_for catalogs "tms" "order.write" ≡ some feature)
          × ((feature ≡ "") ⊎ CompanyHolds sold_in 20 tables 1 "tms" feature)))
unfolding joined_role find_role first extras_of
build_access-has_permission_example =
    build_access-has_permission same sold_in 20 tables 7 1 catalogs holder "tms" "order.write" refl
      refl refl

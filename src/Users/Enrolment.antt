-- ===== src/Users/Enrolment.antt =====
-- Register and its transaction, which is one step: where it fails, nothing has been written.
use authentication_service.Prelude.{
  String, Bool, true, false, not, ◌&&◌, ◌||◌, List, [], ◌∷◌, ◌++◌, Option, some, ◌==◌,
  if◌then◌else◌,
}
use authentication_service.Prelude.Text.{trim_space}
use authentication_service.Authctx.Catalog.Shipped.{default_tms_features}
use authentication_service.Auth.Sessions.{is_text, is_citext}
use authentication_service.Auth.Store.{Uuid, User, is_nil}
use authentication_service.Auth.Account.{is_strong}
use authentication_service.Entitlement.Rows.{CompanyModule}
use authentication_service.Users.Permissions.{upsert, extra_row}
use authentication_service.Users.Registration.{
  RegisterInput, Tenant, Registry, weak_password, no_identifier, names_a_company, role_needed,
  taken, broken, checking, hashing, creating_company, creating_user, granting, Fresh, Outcome,
  accepted, ◌>>=◌, ◌>>◌, unless_rejected, is_taken, check_seats, grant_defaults, give_role,
  new_user, new_tenant_row, tenant_code,
}

unfoldable pub is_new_tenant : RegisterInput → Bool
is_new_tenant input = is_nil input.parent_id && (is_nil input.company_id && not input.unaffiliated)

-- The company of the new account.
abbrev pub company_for : Fresh → RegisterInput → Bool → Option Uuid
company_for f input true = some f.company_id
company_for f input false = input.company_id

abbrev pub tenants_with : Fresh → RegisterInput → Bool → List Tenant → List Tenant
tenants_with f input true ts = ts ++ new_tenant_row f input ∷ []
tenants_with f input false ts = ts

abbrev pub modules_with : Fresh → Bool → List CompanyModule → List CompanyModule
modules_with f true rows = grant_defaults f.company_id default_tms_features rows
modules_with f false rows = rows

abbrev pub is_empty : List String → Bool
is_empty [] = true
is_empty (_ ∷ _) = false

-- The transaction.
unfoldable pub enrol : Fresh → RegisterInput → Registry → Outcome (User × Registry)
unfolding is_new_tenant check_seats new_user give_role upsert grant_defaults new_tenant_row
    tenant_code
enrol f input r = do
  unless_rejected
      (is_new_tenant input && (f.fails creating_company || is_nil (tenant_code f input))) broken
  check_seats f (is_new_tenant input) (company_for f input (is_new_tenant input)) r
  unless_rejected (f.fails creating_user) broken
  unless_rejected (is_new_tenant input && f.fails granting) broken
  given ←
      give_role f (is_new_tenant input) input.role_id (company_for f input (is_new_tenant input))
        r.directory (new_user f input (company_for f input (is_new_tenant input)))
  unless_rejected (not (is_empty input.permissions) && f.fails granting) broken
  accepted (
    given.0,
    record {
      directory = record given.1 {
        store = record r.directory.store { users = r.directory.store.users ++ given.0 ∷ [] };
        modules = modules_with f (is_new_tenant input) r.directory.modules;
        extras =
            if is_empty input.permissions
            then r.directory.extras
            else upsert (extra_row f.user_id "tms" input.permissions true) r.directory.extras;
      };
      tenants = tenants_with f input (is_new_tenant input) r.tenants;
    },
  )

-- Register
unfoldable pub register : Fresh → RegisterInput → Registry → Outcome (User × Registry)
unfolding enrol is_new_tenant is_taken is_strong trim_space
register f input r = do
  unless_rejected (not (is_strong input.password)) weak_password
  unless_rejected (input.email == "" && (input.phone == "" && input.username == "")) no_identifier
  unless_rejected (input.unaffiliated && not (is_nil input.parent_id && is_nil input.company_id))
      names_a_company
  unless_rejected (is_new_tenant input && input.role == "") role_needed
  unless_rejected (f.fails checking) broken
  unless_rejected
      (is_taken (is_citext f.fold) (λ u. u.email) (f.lower (trim_space input.email))
        r.directory.store.users)
      taken
  unless_rejected
      (is_taken (is_citext f.fold) (λ u. u.username) (trim_space input.username)
        r.directory.store.users)
      taken
  unless_rejected (is_taken is_text (λ u. u.phone) (trim_space input.phone) r.directory.store.users)
      taken
  unless_rejected (f.fails hashing) broken
  enrol f input r

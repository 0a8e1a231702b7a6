-- ===== src/Users/Registration.antt =====
-- What Register reads and writes, and the statements that it runs. `lower` and `upper` stand for
-- strings.ToLower and strings.ToUpper, `fold` for the lower-casing by which a CITEXT column compares.
use authentication_service.Prelude.{
  ℕ, String, Bool, true, false, not, ◌&&◌, List, [], ◌∷◌, ◌++◌, any, keep, length, Option, none,
  some, ◌==◌, nat_eq, ltb, leb, if◌then◌else◌,
}
use Prim.Native.Char.{Char}
use authentication_service.Prelude.Text.{trim_space}
use authentication_service.Abbrev.Derive.{before_create}
use authentication_service.Auth.Store.{Uuid, User, is_nil}
use authentication_service.Auth.Tokens.{nil_if_empty}
use authentication_service.Entitlement.Rows.{CompanyModule}
use authentication_service.Entitlement.Modules.{is_row_of}
use authentication_service.Access.Build.{RoleRow}
use authentication_service.Users.Directory.{Directory, find_role_of}

pub record RegisterInput : Type 0 where
  pub username : String
  pub email : String
  pub phone : String
  pub password : String
  pub full_name : String
  pub role : String
  pub parent_id : Option Uuid
  pub company_id : Option Uuid
  pub role_id : Option Uuid
  pub company_name : String
  pub company_abbreviation : String
  pub permissions : List String
  pub unaffiliated : Bool

-- The columns of companies that a registration reads and writes.
pub record Tenant : Type 0 where
  pub id : Uuid
  pub name : String
  pub role : String
  pub abbreviation : Option String
  pub max_users : ℕ

pub record Registry : Type 0 where
  pub directory : Directory
  pub tenants : List Tenant

pub data Rejection : Type 0 where
  weak_password no_identifier names_a_company role_needed taken no_seat no_role foreign broken :
      Rejection

-- The calls that can fail for a reason of their own.
pub data Stage : Type 0 where
  checking hashing creating_company reading_seats creating_user granting assigning : Stage

pub record Fresh : Type 0 where
  pub fails : Stage → Bool
  pub lower : String → String
  pub fold : String → String
  pub upper : String → String
  pub is_word : Char → Bool
  pub hash_password : String → String
  pub user_id : Uuid
  pub company_id : Uuid
  pub role_id : Uuid

pub data Outcome {ℓ} (A : Type ℓ) : Type ℓ where
  accepted : A → Outcome A
  rejected : Rejection → Outcome A

module _ {ℓ κ} {A : Type ℓ} {B : Type κ} where
  infixl 5 ◌>>=◌
  abbrev pub ◌>>=◌ : Outcome A → (A → Outcome B) → Outcome B
  ◌>>=◌ (accepted a) f = f a
  ◌>>=◌ (rejected e) f = rejected e

infixl 5 ◌>>◌
abbrev pub ◌>>◌ {ℓ} : {B : Type ℓ} → Outcome (Unit {0}) → Outcome B → Outcome B
m >> k = m >>= λ _. k

abbrev pub unless_rejected : Bool → Rejection → Outcome (Unit {0})
unless_rejected true e = rejected e
unless_rejected false e = accepted tt

-- firstNonEmpty
unfoldable pub first_non_empty : List String → String
unfolding trim_space
first_non_empty [] = "Unnamed Company"
first_non_empty (v ∷ vs) =
    let rest = first_non_empty vs in if not (trim_space v == "") then v else rest

-- abbreviationOrNil
unfoldable pub abbreviation_or_nil : (String → String) → String → Option String
unfolding trim_space nil_if_empty
abbreviation_or_nil upper s = nil_if_empty (upper (trim_space s))

-- ExistsByEmail, ExistsByUsername and ExistsByPhone: `equals` is the equality of the column. An empty
-- identifier is not looked up.
unfoldable pub is_taken :
    (Option String → String → Bool) → (User → Option String) → String → List User → Bool
is_taken equals field value users =
    if value == "" then false else any (λ u. equals (field u) value) users

-- The value of an account's company, as `company_id = ?` reads it.
abbrev pub works_for : Uuid → Option Uuid → Bool
works_for company none = false
works_for company (some c) = nat_eq c company

-- CountActiveUsers
unfoldable pub count_active_users : Uuid → List User → ℕ
count_active_users company users = length (keep (λ u. works_for company u.company_id) users)

-- `SELECT max_users`, 0 for no row.
unfoldable pub max_users_of : Uuid → List Tenant → ℕ
max_users_of company [] = 0
max_users_of company (t ∷ ts) =
    let rest = max_users_of company ts in if nat_eq t.id company then t.max_users else rest

-- The seats of a company that is joined; a new one has no limit yet.
unfoldable pub check_seats : Fresh → Bool → Option Uuid → Registry → Outcome (Unit {0})
unfolding count_active_users max_users_of
check_seats f true company r = accepted tt
check_seats f false none r = accepted tt
check_seats f false (some company) r = do
  unless_rejected (f.fails reading_seats) broken
  unless_rejected
      (ltb 0 (max_users_of company r.tenants)
        && leb (max_users_of company r.tenants)
            (count_active_users company r.directory.store.users))
      no_seat

-- GrantDefaults: `INSERT … ON CONFLICT DO NOTHING`.
unfoldable pub grant_defaults : Uuid → List String → List CompanyModule → List CompanyModule
unfolding is_row_of
grant_defaults company [] rows = rows
grant_defaults company (name ∷ names) rows = grant_defaults company names (
    if any (is_row_of company "tms" name) rows
    then rows
    else rows
      ++ record {
        company_id = company;
        product = "tms";
        name = name;
        enabled = true;
        valid_from = none;
        valid_until = none;
      }
        ∷ [])

abbrev pub is_administrator_of : Uuid → RoleRow → Bool
is_administrator_of company row = nat_eq row.company_id company && row.role.name == "Administrator"

-- EnsureAdministrator: the roles with the administrator of the company, and its id.
unfoldable pub ensure_administrator : Uuid → Uuid → List RoleRow → Uuid × List RoleRow
ensure_administrator new company [] = (
  new,
  record {
    id = new;
    company_id = company;
    role = record { name = "Administrator"; grants_all = true; permissions = [] };
  }
      ∷ [],
)
ensure_administrator new company (row ∷ rows) =
    let (id, rest) = ensure_administrator new company rows in
    if is_administrator_of company row
    then (row.id, record row { role = record row.role { grants_all = true } } ∷ rows)
    else (id, row ∷ rest)

-- The role of an account that joins a company, and the roles afterwards.
unfoldable pub choose_role :
    Fresh → Bool → Option Uuid → Uuid → Directory → Outcome (Uuid × List RoleRow)
unfolding ensure_administrator find_role_of
choose_role f new_tenant none company d =
    if not new_tenant
    then rejected no_role
    else if f.fails assigning
    then rejected broken
    else accepted (ensure_administrator f.role_id company d.roles)
choose_role f new_tenant (some role) company d =
    if is_nil (find_role_of company role d) then rejected foreign else accepted (role, d.roles)

-- `SetRole` on the account, where it has a company.
unfoldable pub give_role :
    Fresh → Bool → Option Uuid → Option Uuid → Directory → User → Outcome (User × Directory)
unfolding choose_role
give_role f new_tenant role none d u = accepted (u, d)
give_role f new_tenant role (some company) d u = do
  chosen ← choose_role f new_tenant role company d
  unless_rejected (f.fails assigning) broken
  accepted (record u { role_id = some chosen.0 }, record d { roles = chosen.1 })

-- The row of the new account, without a role.
unfoldable pub new_user : Fresh → RegisterInput → Option Uuid → User
unfolding trim_space nil_if_empty
new_user f input company = record {
  id = f.user_id;
  email = nil_if_empty (f.lower (trim_space input.email));
  username = nil_if_empty (trim_space input.username);
  phone = nil_if_empty (trim_space input.phone);
  password_hash = f.hash_password input.password;
  is_suspended = false;
  is_platform_staff = false;
  max_devices = 0;
  fms_user_id = none;
  company_id = company;
  company = none;
  role_id = none;
}

unfoldable pub tenant_name : RegisterInput → String
unfolding first_non_empty
tenant_name input = first_non_empty (input.company_name ∷ input.full_name ∷ input.email ∷ [])

-- The code that the hook of the insertion settles, none where the insertion fails.
unfoldable pub tenant_code : Fresh → RegisterInput → Option String
unfolding tenant_name abbreviation_or_nil before_create
tenant_code f input =
    before_create f.lower f.upper f.is_word (tenant_name input)
      (abbreviation_or_nil f.upper input.company_abbreviation)

-- The row of the new company.
unfoldable pub new_tenant_row : Fresh → RegisterInput → Tenant
unfolding tenant_name tenant_code
new_tenant_row f input = record {
  id = f.company_id;
  name = tenant_name input;
  role = input.role;
  abbreviation = tenant_code f input;
  max_users = 0;
}

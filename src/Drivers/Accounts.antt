-- ===== src/Drivers/Accounts.antt =====
-- Create, Lookup, Adopt and List, for queries that succeed. What a call has written before it fails
-- stays. The message to the driver is not kept: the answer says that it was sent.
use authentication_service.Prelude.{
  String, Bool, true, false, not, ◌&&◌, ◌||◌, List, [], ◌∷◌, ◌++◌, map, any, keep, take, backwards,
  Option, none, some, ◌==◌, nat_eq, contains, if◌then◌else◌,
}
use authentication_service.Prelude.Text.{trim_space}
use authentication_service.Prelude.Attempt.{Attempt, yields, fails}
use authentication_service.Auth.Store.{Uuid, User, is_nil}
use authentication_service.Auth.Sessions.{first, find_user, find_by_identifier}
use authentication_service.Access.Build.{RoleRow}
use authentication_service.Users.Permissions.{update_where}
use authentication_service.Users.Registration.{
  RegisterInput, Registry, Rejection, Fresh, Outcome, accepted, rejected, Tenant, works_for,
}
use authentication_service.Users.Enrolment.{register}
use authentication_service.Drivers.Names.{derive_username}

abbrev pub driver_role_name : String
driver_role_name = "Driver"

abbrev pub driver_role_permissions : List String
driver_role_permissions = "tms:shipment.read" ∷ "tms:shipment.update" ∷ "tms:order.read" ∷ []

abbrev pub default_driver_password : String
default_driver_password = "123456"

-- The roles that are `is_system`, beside the tables of a registration.
pub record DriverTables : Type 0 where
  pub registry : Registry
  pub system_roles : List Uuid

pub record CreateDriverAccountInput : Type 0 where
  pub full_name : String
  pub phone : String
  pub username : String
  pub password : String
  pub send_whats_app : Bool

pub record DriverAccount : Type 0 where
  pub user_id : Uuid
  pub username : String
  pub phone : String
  pub status : String
  pub password : Option String
  pub whats_app_sent : Bool

pub data DriverError : Type 0 where
  name_required phone_required all_taken not_found other_company : DriverError
  not_registered : Rejection → DriverError

-- RoleRepository.FindByName
unfoldable pub find_by_name : Uuid → String → List RoleRow → Option RoleRow
unfolding first
find_by_name company name = first (λ r. nat_eq r.company_id company && r.role.name == name)

abbrev pub missing_keys : RoleRow → List String
missing_keys row = keep (λ p. not (contains row.role.permissions p)) driver_role_permissions

abbrev pub is_none : List String → Bool
is_none [] = true
is_none (_ ∷ _) = false

abbrev pub topped_up : RoleRow → RoleRow
topped_up row = record row {
  role = record row.role { permissions = row.role.permissions ++ missing_keys row };
}

abbrev pub with_roles : List RoleRow → DriverTables → DriverTables
with_roles roles t = record t {
  registry = record t.registry { directory = record t.registry.directory { roles = roles } };
}

abbrev pub is_system : Uuid → DriverTables → Bool
is_system id t = any (nat_eq id) t.system_roles

-- `UPDATE roles … WHERE id = ? AND company_id = ?`
unfoldable pub update_role : Uuid → Uuid → List String → RoleRow → RoleRow
update_role company id keys r =
    if nat_eq r.id id && nat_eq r.company_id company
    then record r { role = record r.role { permissions = keys } }
    else r

-- The role that is there, with what it lacks.
unfoldable pub top_up : Uuid → RoleRow → DriverTables → DriverTables
unfolding contains update_role
top_up company row t =
    if not (is_none (missing_keys row)) && is_system row.id t
    then with_roles
        (map (update_role company row.id (topped_up row).role.permissions)
          t.registry.directory.roles)
        t
    else t

abbrev pub new_driver_role : Uuid → Uuid → RoleRow
new_driver_role id company = record {
  id = id;
  company_id = company;
  role = record {
    name = driver_role_name;
    grants_all = false;
    permissions = driver_role_permissions;
  };
}

abbrev pub role_there : Uuid → Uuid → Option RoleRow → DriverTables → Uuid × DriverTables
role_there new company (some row) t = (row.id, top_up company row t)
role_there new company none t = (
  new,
  record (with_roles (t.registry.directory.roles ++ new_driver_role new company ∷ []) t) {
    system_roles = new ∷ t.system_roles;
  },
)

-- ensureDriverRole: the id of the role.
unfoldable pub ensure_driver_role : Uuid → Uuid → DriverTables → Uuid × DriverTables
unfolding find_by_name top_up
ensure_driver_role new company t =
    role_there new company (find_by_name company driver_role_name t.registry.directory.roles) t

-- statusOf
abbrev pub status_of : User → String
status_of u = if u.is_suspended then "suspended" else "active"

abbrev pub or_blank : Option String → String
or_blank none = ""
or_blank (some s) = s

-- toDriverAccount
unfoldable pub to_driver_account : User → DriverAccount
to_driver_account u = record {
  user_id = u.id;
  username = or_blank u.username;
  phone = or_blank u.phone;
  status = status_of u;
  password = none;
  whats_app_sent = false;
}

abbrev pub or_default : String → String
or_default password = if password == "" then default_driver_password else password

abbrev pub find_tenant : Uuid → List Tenant → Option Tenant
find_tenant id = first (λ c. nat_eq c.id id)

-- The registration that Create asks for.
unfoldable pub registration : Uuid → Uuid → Uuid → String → CreateDriverAccountInput → RegisterInput
unfolding trim_space
registration actor company role username input = record {
  username = username;
  email = "";
  phone = trim_space input.phone;
  password = or_default input.password;
  full_name = trim_space input.full_name;
  role = "";
  parent_id = some actor;
  company_id = some company;
  role_id = some role;
  company_name = "";
  company_abbreviation = "";
  permissions = [];
  unaffiliated = false;
}

-- The answer of Create.
unfoldable pub created : String → CreateDriverAccountInput → User → DriverAccount
unfolding trim_space
created username input u = record {
  user_id = u.id;
  username = username;
  phone = trim_space input.phone;
  status = status_of u;
  password =
      if input.password == "" || input.send_whats_app
      then some (or_default input.password)
      else none;
  whats_app_sent = input.send_whats_app;
}

module _ (f : Fresh) where
  -- The username that is given, or the one that is derived.
  unfoldable pub username_for : Uuid → CreateDriverAccountInput → DriverTables → Option String
  unfolding trim_space derive_username first
  username_for company input t =
      if trim_space input.username == ""
      then derive_username f.lower f.fold t.registry.directory.store.users
          (find_tenant company t.registry.tenants) (trim_space input.full_name)
      else some (trim_space input.username)

  abbrev pub after_register :
      String
      → CreateDriverAccountInput
      → Outcome (User × Registry)
      → DriverTables
      → Attempt DriverError DriverAccount × DriverTables
  after_register username input (rejected e) t = (fails (not_registered e), t)
  after_register username input (accepted (u, r)) t =
      (yields (created username input u), record t { registry = r })

  -- The rest of Create, once there is a role.
  unfoldable pub enrol_driver :
      Uuid
      → Uuid
      → Uuid
      → CreateDriverAccountInput
      → Option String
      → DriverTables
      → Attempt DriverError DriverAccount × DriverTables
  unfolding registration register created
  enrol_driver actor company role input none t = (fails all_taken, t)
  enrol_driver actor company role input (some username) t =
      after_register username input
        (register f (registration actor company role username input) t.registry) t

  -- Create, with the id of the role that it may insert.
  unfoldable pub create :
      Uuid
      → Uuid
      → Uuid
      → CreateDriverAccountInput
      → DriverTables
      → Attempt DriverError DriverAccount × DriverTables
  unfolding trim_space ensure_driver_role username_for enrol_driver
  create new actor company input t =
      if trim_space input.full_name == ""
      then (fails name_required, t)
      else if trim_space input.phone == ""
      then (fails phone_required, t)
      else let (role, ensured) = ensure_driver_role new company t in
        enrol_driver actor company role input (username_for company input ensured) ensured

-- The account is in another company.
abbrev pub is_elsewhere : Uuid → User → Bool
is_elsewhere company u = not (is_nil u.company_id) && not (works_for company u.company_id)

-- Lookup
unfoldable pub lookup_driver :
    (String → String) → Uuid → String → DriverTables → Attempt DriverError DriverAccount
unfolding find_by_identifier trim_space to_driver_account
lookup_driver fold company username t =
    elim (find_by_identifier fold (trim_space username) t.registry.directory.store) [
      | none ↦ fails not_found
      | some u ↦
          if is_elsewhere company u then fails other_company else yields (to_driver_account u)
    ]

abbrev pub as_driver : Uuid → Uuid → User → User
as_driver company role u = record u { company_id = some company; role_id = some role }

-- `UPDATE users SET company_id = ?, role_id = ? WHERE id = ?`
unfoldable pub attach : Uuid → Uuid → Uuid → DriverTables → DriverTables
unfolding update_where
attach company role id t = record t {
  registry = record t.registry {
    directory = record t.registry.directory {
      store = record t.registry.directory.store {
        users = update_where id (as_driver company role) t.registry.directory.store.users;
      };
    };
  };
}

-- Adopt, of the account that has been found.
unfoldable pub adopt_account :
    Uuid
    → Uuid
    → Uuid
    → Option User
    → DriverTables
    → Attempt DriverError DriverAccount × DriverTables
unfolding ensure_driver_role attach to_driver_account
adopt_account new company id none t = (fails not_found, t)
adopt_account new company id (some u) t =
    if is_elsewhere company u
    then (fails other_company, t)
    else let (role, ensured) = ensure_driver_role new company t in
      (yields (to_driver_account (as_driver company role u)), attach company role id ensured)

-- Adopt
unfoldable pub adopt :
    Uuid → Uuid → Uuid → DriverTables → Attempt DriverError DriverAccount × DriverTables
unfolding find_user adopt_account
adopt new company id t = adopt_account new company id (find_user id t.registry.directory.store) t

abbrev pub has_role : Uuid → User → Bool
has_role role u = works_for role u.role_id

-- List: among the first 500 members, the latest first.
unfoldable pub list_drivers : Uuid → DriverTables → List DriverAccount
unfolding find_by_name to_driver_account
list_drivers company t = elim (find_by_name company driver_role_name t.registry.directory.roles) [
  | none ↦ []
  | some row ↦ map to_driver_account (
      keep (has_role row.id) (
        take 500 (
          backwards (keep (λ u. works_for company u.company_id) t.registry.directory.store.users))))
]

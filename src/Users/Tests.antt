-- ===== src/Users/Tests.antt =====
-- A company with an administrator and a member.
use authentication_service.Prelude.{
  arith, nat_eq_iff, ◌++◌, ℕ, String, true, false, List, [], ◌∷◌, Option, none, some, ◌==◌, ◌≡◌,
  ◌≢◌, refl, All, inl,
}
use authentication_service.Authctx.Product.{catalog_for}
use authentication_service.Entitlement.Features.{features_in}
use authentication_service.Authctx.Catalog.Shipped.{catalogs}
use authentication_service.Authctx.Principal.{Principal, no_principal, has_permission}
use authentication_service.Auth.Store.{Uuid, User, Store, Env}
use authentication_service.Auth.Sessions.{find_user}
use authentication_service.Access.Build.{build_access}
use authentication_service.Authctx.Verifier.{Parse}
use authentication_service.Users.Directory.{
  Directory, Outside, access_tables, done, forbidden, not_revoked,
}
use authentication_service.Users.Permissions.{set_permission, assign_role}
use authentication_service.Users.Accounts.{
  set_suspended, project_allowed, profile_updatable, admin_updatable,
}
use authentication_service.Users.Granted.{Granted, set_permission-Granted}
use authentication_service.Users.Usable.{set_permission-has_permission}
use authentication_service.Users.Enrolment.{register}
use authentication_service.Users.Registration.{
  RegisterInput, Fresh, Registry, count_active_users, max_users_of,
}
use authentication_service.Users.Seats.{WithinSeats, register-WithinSeats}
use authentication_service.Users.Allowlist.{
  Untouched, privileges, administrative, project_allowed-privileges,
}

abbrev member : ℕ → Option ℕ → User
member id company = record {
  id = id;
  email = none;
  username = none;
  phone = none;
  password_hash = "";
  is_suspended = false;
  is_platform_staff = false;
  max_devices = 0;
  fms_user_id = none;
  company_id = company;
  company = none;
  role_id = some 2;
}

abbrev store : Store
store = record {
  users = member 6 (some 1) ∷ member 7 (some 1) ∷ member 8 (some 9) ∷ [];
  sessions = [];
  api_keys = [];
  companies = [];
  announced = [];
  audit = [];
}

abbrev directory : Directory
directory = record {
  store = store;
  roles =
      record {
        id = 2;
        company_id = 1;
        role = record { name = "Planner"; grants_all = false; permissions = [] };
      }
      ∷ [];
  extras = [];
  modules =
      record {
        company_id = 1;
        product = "tms";
        name = "order";
        enabled = true;
        valid_from = none;
        valid_until = none;
      }
      ∷ [];
  settings = [];
}

abbrev same : List String → List String
same xs = xs

abbrev outside : Outside
outside = record {
  now = 100;
  today = 20;
  fails = λ call. false;
  uuid_text = λ id. "u";
  sort = same;
  sellable = λ product. [];
  catalogs = catalogs;
}

abbrev granted : Directory
granted = (set_permission outside 6 7 "tms" ("order.read" ∷ []) directory).1

project_allowed-privileges_example :
    All
      (Untouched {V = String}
        (project_allowed (("role_id", "2") ∷ ("email", "a@b") ∷ []) profile_updatable))
      privileges
    × All
        (Untouched {V = String}
          (project_allowed (("role_id", "2") ∷ ("email", "a@b") ∷ []) profile_updatable))
        administrative
    × All
        (Untouched {V = String}
          (project_allowed (("role_id", "2") ∷ ("email", "a@b") ∷ []) admin_updatable))
        privileges
project_allowed-privileges_example =
    project_allowed-privileges (("role_id", "2") ∷ ("email", "a@b") ∷ [])

different : forbidden ≢ not_revoked
different h = cc h

set_permission-done :
    set_permission outside 6 7 "tms" ("order.read" ∷ []) directory ≡ (done tt, granted)
unfolding set_permission find_user catalog_for catalogs features_in
set_permission-done = refl

set_permission-Granted_example :
    (a t : User) × (company : Uuid) × Granted outside 6 7 "tms"
      ("order.read" ∷ [])
      directory
      granted
      a
      t
      company
set_permission-Granted_example =
    set_permission-Granted outside 6 7 "tms" ("order.read" ∷ []) directory granted
      set_permission-done

abbrev holder : Principal
holder = record no_principal {
  access = build_access same (λ product. []) 20 (access_tables granted) 7 (some 1);
}

set_permission-has_permission_example : has_permission catalogs holder "tms" "order.read" ≡ true
unfolding find_user
set_permission-has_permission_example =
    set_permission-has_permission outside 6 7 1 "tms" "order.read" ("order.read" ∷ []) directory
      granted (member 7 (some 1)) holder (λ v xs. (λ h. h, λ h. h)) set_permission-done refl refl
      refl refl refl (inl refl)

abbrev the_role : ℕ
the_role = 2

abbrev moved : Directory
moved = (assign_role outside 6 7 2 directory).1

abbrev suspended : Directory
suspended = (set_suspended outside 6 7 true directory).1

-- A request that comes from the member.
abbrev request : Env
request = record {
  now = 100;
  fails = λ op. false;
  new_token_id = 11;
  new_refresh = "second";
  hash_token = λ t. t;
  fold = λ s. s;
  hash_password = λ p. p;
  compare_password = λ hash p. hash == p;
  uuid_text = λ id. "7";
  parse_uuid = λ s. some 7;
  counted = some 1;
  failures = none;
  login_rate_limit = 5;
  access_token_ttl = 10;
  refresh_token_ttl = 500;
  build_access = λ u c. some [];
  build_access_for_role = λ r c. some [];
  sign = λ p at until. some "a.b.c";
  parse_token = λ t. none;
}

-- A token of the member, signed before, that another service reads.
abbrev held : Principal
held = record no_principal { user_id = "u"; token_id = "s" }

abbrev reads : Parse
reads token = some (record { principal = held; issued_at = some 90 }, true)

-- An invitation to the last seat.
abbrev invitation : RegisterInput
invitation = record {
  username = "siti";
  email = "";
  phone = "";
  password = "rahasia123";
  full_name = "Siti";
  role = "";
  parent_id = some 6;
  company_id = some 1;
  role_id = some 2;
  company_name = "";
  company_abbreviation = "";
  permissions = [];
  unaffiliated = false;
}

abbrev fresh : Fresh
fresh = record {
  fails = λ stage. false;
  lower = λ s. s;
  upper = λ s. s;
  is_word = λ c. true;
  fold = λ s. s;
  hash_password = λ p. p;
  user_id = 10;
  company_id = 11;
  role_id = 12;
}

abbrev registry : Registry
registry = record {
  directory = directory;
  tenants =
      record { id = 1; name = "Karlo"; role = "transporter"; abbreviation = none; max_users = 3 }
      ∷ [];
}

abbrev siti : User
siti = record (member 10 (some 1)) { username = some "siti"; password_hash = "rahasia123" }

abbrev invited : Registry
invited = record registry {
  directory = record directory { store = record store { users = store.users ++ siti ∷ [] } };
}

registry-WithinSeats : WithinSeats registry
unfolding count_active_users max_users_of
registry-WithinSeats company = ground (arith, nat_eq_iff 1 company)

register-WithinSeats_example : WithinSeats invited
unfolding register
register-WithinSeats_example =
    register-WithinSeats fresh invitation registry invited siti refl refl registry-WithinSeats

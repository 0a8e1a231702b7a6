-- ===== src/Drivers/Tests.antt =====
-- A company with one member, who is made a driver, and a driver that is registered.
use authentication_service.Prelude.{
  String, true, false, not, [], ◌∷◌, none, some, ◌≡◌, ◌≢◌, ◌⊎◌, refl,
}
use authentication_service.Auth.Store.{Uuid, User}
use authentication_service.Auth.Sessions.{first, find_user}
use authentication_service.Users.Registration.{Fresh, Tenant}
use authentication_service.Drivers.Names.{is_used, base_username, derive_username}
use authentication_service.Drivers.Accounts.{
  DriverTables, DriverAccount, other_company, CreateDriverAccountInput, create, adopt,
}
use authentication_service.Drivers.Free.{numbered, derive_username-first}
use authentication_service.Drivers.Adopted.{Adopted, adopt-IsDriverRole}
use authentication_service.Prelude.Attempt.{yields, fails}

abbrev as_is : String → String
as_is s = s

abbrev budi : User
budi = record {
  id = 6;
  email = none;
  username = some "budints";
  phone = none;
  password_hash = "";
  is_suspended = false;
  is_platform_staff = false;
  max_devices = 0;
  fms_user_id = none;
  company_id = some 1;
  company = none;
  role_id = some 2;
}

abbrev nts : Tenant
nts = record {
  id = 1;
  name = "NTS";
  role = "transporter";
  abbreviation = some "nts";
  max_users = 0;
}

abbrev tables : DriverTables
tables = record {
  registry = record {
    directory = record {
      store = record {
        users = budi ∷ [];
        sessions = [];
        api_keys = [];
        companies = [];
        announced = [];
        audit = [];
      };
      roles = [];
      extras = [];
      modules = [];
      settings = [];
    };
    tenants = nts ∷ [];
  };
  system_roles = [];
}

abbrev fresh : Fresh
fresh = record {
  fails = λ stage. false;
  lower = as_is;
  fold = as_is;
  upper = as_is;
  is_word = λ c. true;
  hash_password = as_is;
  user_id = 10;
  company_id = 11;
  role_id = 12;
}

abbrev input : CreateDriverAccountInput
input = record {
  full_name = "budi santoso";
  phone = "0812";
  username = "";
  password = "";
  send_whats_app = false;
}

derive_username-first_example :
    derive_username as_is as_is (budi ∷ []) (some nts) "budi santoso"
    ≡ first
        (λ c. not (is_used as_is (budi ∷ []) c))
        (base_username as_is (some nts) "budi santoso"
          ∷ numbered (base_username as_is (some nts) "budi santoso") 99 1)
derive_username-first_example =
    derive_username-first as_is as_is (budi ∷ []) (some nts) "budi santoso"

adopt-IsDriverRole_example :
    (((budi.company_id ≡ none) ⊎ (budi.company_id ≡ some 1))
      × (a : DriverAccount) × (after : DriverTables) × (adopt 5 1 6 tables ≡ (yields a, after))
      × (a.user_id ≡ 6)
      × Adopted 1 6 budi tables after)
    ⊎ ((c : Uuid) × (budi.company_id ≡ some c)
        × (c ≢ 1)
        × (adopt 5 1 6 tables ≡ (fails other_company, tables)))
unfolding find_user
adopt-IsDriverRole_example = adopt-IsDriverRole 5 1 6 tables budi refl

abbrev created_tables : DriverTables
created_tables = (create fresh 5 6 1 input tables).1

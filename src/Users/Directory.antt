-- ===== src/Users/Directory.antt =====
-- What the methods of UserService read and write, and how they fail. A method that fails keeps what it
-- has written before.
use authentication_service.Prelude.{
  ℕ, String, Bool, true, false, not, ◌&&◌, List, [], ◌∷◌, ◌++◌, map, Option, none, some, nat_eq,
  if◌then◌else◌,
}
use authentication_service.Authctx.Product.{Catalogs}
use authentication_service.Authctx.Features.Tables.{Feature}
use authentication_service.Auth.Store.{Uuid, User, Store, administered}
use authentication_service.Auth.Sessions.{first, find_user, revoke_all}
use authentication_service.Entitlement.Rows.{CompanyModule, CompanyProductSettings}
use authentication_service.Access.Build.{
  Person, RoleRow, ExtraRow, AccessTables, active_for_company,
}
use authentication_service.Revocation.Held.{Time}

pub record Directory : Type 0 where
  pub store : Store
  pub roles : List RoleRow
  pub extras : List ExtraRow
  pub modules : List CompanyModule
  pub settings : List CompanyProductSettings

abbrev pub person_of : User → Person
person_of u = record { id = u.id; role_id = u.role_id; is_platform_staff = u.is_platform_staff }

-- The tables that the building of an access reads.
abbrev pub access_tables : Directory → AccessTables
access_tables d = record {
  users = map person_of d.store.users;
  roles = d.roles;
  extras = d.extras;
  modules = d.modules;
  settings = d.settings;
}

pub data Refusal : Type 0 where
  not_found forbidden invalid administers_already no_company foreign_role : Refusal
  nothing_to_update not_revoked internal : Refusal

-- The calls of the database that can fail for a reason of their own.
pub data Call : Type 0 where
  find_actor find_target find_role entitlement write end_sessions write_audit build : Call

-- What is outside: the clock, the failures, sort.Strings, the catalogues and the registry.
pub record Outside : Type 0 where
  pub now : Time
  pub today : ℕ
  pub fails : Call → Bool
  pub uuid_text : Uuid → String
  pub sort : List String → List String
  pub sellable : String → List Feature
  pub catalogs : Catalogs

pub data Answer {ℓ} (A : Type ℓ) : Type ℓ where
  done : A → Answer A
  failed : Refusal → Answer A

abbrev pub Act {ℓ} : Type ℓ → Type ℓ
Act A = Directory → Answer A × Directory

module _ {ℓ κ} {A : Type ℓ} {B : Type κ} where
  abbrev pub go_on : Answer A → (A → Act B) → Act B
  go_on (done a) f d = f a d
  go_on (failed e) f d = (failed e, d)

  infixl 5 ◌>>=◌
  abbrev pub ◌>>=◌ : Act A → (A → Act B) → Act B
  ◌>>=◌ m f d = go_on (m d).0 f (m d).1

infixl 5 ◌>>◌
abbrev pub ◌>>◌ {ℓ} : {B : Type ℓ} → Act (Unit {0}) → Act B → Act B
m >> k = m >>= λ _. k

abbrev pub give {ℓ} : {A : Type ℓ} → A → Act A
give a d = (done a, d)

-- A condition that must hold, and a value that must be there.
abbrev pub demand : Bool → Refusal → Act (Unit {0})
demand true e d = (done tt, d)
demand false e d = (failed e, d)

abbrev pub expect {ℓ} : {A : Type ℓ} → Refusal → Option A → Act A
expect e none d = (failed e, d)
expect e (some a) d = (done a, d)

abbrev pub change : (Directory → Directory) → Act (Unit {0})
change f d = (done tt, f d)

module _ (o : Outside) where
  -- UserRepository.FindByID
  unfoldable pub get_user : Call → Uuid → Act User
  get_user call id = do
    demand (not (o.fails call)) internal
    λ d. expect not_found (find_user id d.store) d

  -- RevokeAllForUser, with the error that the methods make of its own.
  unfoldable pub end_sessions_of : Uuid → Act (Unit {0})
  unfolding revoke_all
  end_sessions_of id = do
    demand (not (o.fails end_sessions)) not_revoked
    change (λ d. record d { store = revoke_all o.now o.uuid_text id d.store })

  -- writeAudit never fails its caller.
  unfoldable pub noted : String → Uuid → Uuid → Act (Unit {0})
  noted event target actor =
      if o.fails write_audit
      then give tt
      else change (λ d. record d {
        store = record d.store { audit = d.store.audit ++ administered event target actor ∷ [] };
      })

  -- ModuleRepository.ActiveForCompany
  unfoldable pub held_features : Uuid → String → Act (List String)
  unfolding active_for_company
  held_features company product = do
    demand (not (o.fails entitlement)) internal
    λ d. give (active_for_company o.sort o.sellable o.today (access_tables d) company product) d

-- RoleRepository.FindByID
unfoldable pub find_role_of : Uuid → Uuid → Directory → Option RoleRow
unfolding first
find_role_of company id d = first (λ r. nat_eq r.id id && nat_eq r.company_id company) d.roles

-- ===== src/Auth/Store.antt =====
-- The rows that the authentication service reads and writes (internal/models/models.go), and what a
-- request finds outside: the clock, fresh random values, and the libraries that are called. A UUID
-- is a number.
use authentication_service.Prelude.{
  ℕ, String, Bool, true, false, not, ◌&&◌, List, Option, none, some, ltb, if◌then◌else◌,
}
use authentication_service.Prelude.Dict.{Dict}
use authentication_service.Authctx.Principal.{Principal, ProductAccess}
use authentication_service.Authctx.Verifier.{Parse}
use authentication_service.Revocation.Held.{Time, Event}

abbrev pub Uuid : Type 0
Uuid = ℕ

pub record Company : Type 0 where
  pub id : Uuid
  pub default_max_devices : ℕ
  pub fms_tenant_id : Option ℕ
  pub is_suspended : Bool

-- A row that is not soft-deleted, with its company preloaded.
pub record User : Type 0 where
  pub id : Uuid
  pub email : Option String
  pub username : Option String
  pub phone : Option String
  pub password_hash : String
  pub is_suspended : Bool
  pub is_platform_staff : Bool
  pub max_devices : ℕ
  pub fms_user_id : Option ℕ
  pub company_id : Option Uuid
  pub company : Option Company
  pub role_id : Option Uuid

pub record Session : Type 0 where
  pub user_id : Uuid
  pub token_id : Uuid
  pub refresh_hash : Option String
  pub single_device : Bool
  pub device_id : Option String
  pub expires_at : Time
  pub revoked_at : Option Time

pub record ApiKey : Type 0 where
  pub id : Uuid
  pub key_hash : String
  pub user_id : Option Uuid
  pub company_id : Option Uuid
  pub role_id : Option Uuid
  pub is_active : Bool
  pub expires_at : Option Time
  pub revoked_at : Option Time

abbrev pub is_nil {ℓ} : {A : Type ℓ} → Option A → Bool
is_nil none = true
is_nil (some _) = false

-- Session.IsActive, at the time `now`.
unfoldable pub is_active : Time → Session → Bool
is_active now s = is_nil s.revoked_at && ltb now s.expires_at

-- `ExpiresAt == nil || ExpiresAt.After(now)`
abbrev pub not_expired : Time → Option Time → Bool
not_expired now none = true
not_expired now (some at) = ltb now at

-- APIKey.IsUsable
unfoldable pub is_usable : Time → ApiKey → Bool
is_usable now k =
    if not k.is_active
    then false
    else if not (is_nil k.revoked_at)
    then false
    else not_expired now k.expires_at

-- The events of the audit log that the services write; `administered` has the event, the account and
-- the actor, `claim_issued` the company and the actor, `claim_completed` the account and the company.
pub data Audit : Type 0 where
  login_failure : String → String → Audit
  login_success : Uuid → String → Audit
  logged_out : Uuid → Audit
  session_revoked : Uuid → ℕ → Audit
  password_changed : Uuid → Bool → Audit
  administered : String → Uuid → Uuid → Audit
  claim_issued : Uuid → Uuid → Audit
  claim_completed : Uuid → Uuid → Audit

pub record Store : Type 0 where
  pub users : List User
  pub sessions : List Session
  pub api_keys : List ApiKey
  pub companies : List Company
  pub announced : List Event
  pub audit : List Audit

-- The calls that can fail for a reason of their own, such as a lost connection.
pub data Op : Type 0 where
  find_user create_session evict revoke_session revoke_all update_user random_bytes bcrypt : Op
  find_session find_key find_company touch_login write_audit : Op

-- One request's view of what is outside the model. `counted` is the answer of the attempt counter in
-- the cache and `failures` that of the audit log, none for an error. `sign` is the signer with the
-- key of the service, and `build_access` the access map of a user (none for an error).
pub record Env : Type 0 where
  pub now : Time
  pub fails : Op → Bool
  pub new_token_id : Uuid
  pub new_refresh : String
  pub fold : String → String
  pub hash_token : String → String
  pub hash_password : String → String
  pub compare_password : String → String → Bool
  pub uuid_text : Uuid → String
  pub parse_uuid : String → Option Uuid
  pub counted : Option ℕ
  pub failures : Option ℕ
  pub login_rate_limit : ℕ
  pub access_token_ttl : ℕ
  pub refresh_token_ttl : ℕ
  pub build_access : Uuid → Option Uuid → Option (Dict ProductAccess)
  pub build_access_for_role : Uuid → Option Uuid → Option (Dict ProductAccess)
  pub sign : Principal → Time → Time → Option String
  pub parse_token : Parse

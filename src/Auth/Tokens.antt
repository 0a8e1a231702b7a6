-- ===== src/Auth/Tokens.antt =====
-- mintAccessToken and issueSession (internal/services/auth_service.go).
use authentication_service.Prelude.{
  ℕ, ◌+◌, String, Bool, true, false, not, [], Option, none, some, ◌==◌, nat_eq, if◌then◌else◌,
}
use authentication_service.Prelude.Dict.{Dict}
use authentication_service.Authctx.Principal.{Principal, ProductAccess}
use authentication_service.Revocation.Held.{Time}
use authentication_service.Auth.Store.{
  Uuid, User, Company, Session, Env, create_session as creates, evict, random_bytes,
}
use authentication_service.Auth.Exec.{
  Exec, internal, ◌>>=◌, ◌>>◌, pure, modify, require, or_raise, or_warn,
}
use authentication_service.Auth.Sessions.{create_session, revoke_others}

pub record TokenPair : Type 0 where
  pub access_token : String
  pub refresh_token : String
  pub expires_at : Time
  pub user_id : Uuid

-- nilIfEmpty
unfoldable pub nil_if_empty : String → Option String
nil_if_empty s = if s == "" then none else some s

abbrev pub text_or_empty : (Uuid → String) → Option Uuid → String
text_or_empty text none = ""
text_or_empty text (some id) = text id

abbrev pub zero_if_nil : Option ℕ → ℕ
zero_if_nil none = 0
zero_if_nil (some n) = n

abbrev pub tenant_of : Option Company → ℕ
tenant_of none = 0
tenant_of (some c) = zero_if_nil c.fms_tenant_id

-- A failed look-up mints a token with no access.
abbrev pub access_or_none : Option (Dict ProductAccess) → Dict ProductAccess
access_or_none none = []
access_or_none (some access) = access

-- The principal of mintAccessToken.
unfoldable pub principal_of : Env → User → Uuid → Bool → Principal
principal_of env u token_id single = record {
  user_id = env.uuid_text u.id;
  company_id = text_or_empty env.uuid_text u.company_id;
  fms_tenant_id = tenant_of u.company;
  fms_user_id = zero_if_nil u.fms_user_id;
  is_platform_staff = u.is_platform_staff;
  access = access_or_none (env.build_access u.id u.company_id);
  single_device = single;
  token_id = env.uuid_text token_id;
}

-- mintAccessToken
unfoldable pub mint : Env → User → Uuid → Bool → Exec (String × Time)
unfolding principal_of
mint env u token_id single = do
  let expires = env.now + env.access_token_ttl
  token ← or_raise internal (env.sign (principal_of env u token_id single) env.now expires)
  pure (token, expires)

-- How many devices an account may hold: its own limit, or the company's for 0.
unfoldable pub device_limit : User → ℕ
device_limit u = elim u.company [
  | none ↦ u.max_devices
  | some c ↦ if nat_eq u.max_devices 0 then c.default_max_devices else u.max_devices
]

unfoldable pub session_of : Env → User → Bool → Option String → Session
session_of env u single device = record {
  user_id = u.id;
  token_id = env.new_token_id;
  refresh_hash = some (env.hash_token env.new_refresh);
  single_device = single;
  device_id = device;
  expires_at = env.now + env.refresh_token_ttl;
  revoked_at = none;
}

-- The one-device rule, enforced after the new session exists.
unfoldable pub evict_others : Env → User → Bool → Exec (Unit {0})
unfolding revoke_others
evict_others env u true =
    or_warn (env.fails evict) (revoke_others env.now env.uuid_text u.id env.new_token_id)
evict_others env u false = pure tt

-- issueSession
unfoldable pub issue_session : Env → User → String → Exec TokenPair
unfolding device_limit session_of evict_others mint create_session nil_if_empty
issue_session env u device_id = do
  let single = nat_eq (device_limit u) 1
  require (not (env.fails random_bytes)) internal
  require (not (env.fails creates)) internal
  modify (create_session (session_of env u single (nil_if_empty device_id)))
  evict_others env u single
  (token, expires) ← mint env u env.new_token_id single
  pure (record {
    access_token = token;
    refresh_token = env.new_refresh;
    expires_at = expires;
    user_id = u.id;
  })

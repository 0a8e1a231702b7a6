-- ===== src/Auth/Validate.antt =====
-- ValidateToken and the API keys (internal/services/auth_service.go).
use authentication_service.Prelude.{
  String, Bool, false, not, ◌&&◌, Option, none, some, ◌==◌, nat_eq, if◌then◌else◌,
}
use authentication_service.Prelude.Text.{trim_space, count_of}
use authentication_service.Authctx.Principal.{Principal}
use authentication_service.Authctx.Verifier.{Verified, verify}
use authentication_service.Auth.Store.{
  Uuid, User, ApiKey, Company, Env, find_session, find_user as finds, find_key as finds_key,
  find_company as finds_company, is_active, is_usable,
}
use authentication_service.Auth.Exec.{
  Exec, token_invalid, session_was_revoked, account_deleted, account_suspended, internal, ◌>>=◌,
  ◌>>◌, pure, raise, gets, require, or_raise,
}
use authentication_service.Auth.Sessions.{find_by_token_id, find_user, find_key, find_company}
use authentication_service.Auth.Tokens.{text_or_empty, zero_if_nil}

-- Who a credential stands for: a user, or the key and its company for a machine credential.
pub data Holder : Type 0 where
  person : User → Holder
  machine : ApiKey → Company → Holder

pub record Validated : Type 0 where
  pub principal : Principal
  pub holder : Holder

abbrev pub unless {ℓ} : {A : Type ℓ} → Bool → Option A → Option A
unless failed found = if failed then none else found

-- A single-device session must be live in the store.
unfoldable pub confirm_session : Env → Principal → Exec (Unit {0})
unfolding is_active find_by_token_id
confirm_session env p = if not (p.single_device && not (p.token_id == "")) then pure tt else (do
  token_id ← or_raise token_invalid (env.parse_uuid p.token_id)
  found ← gets (λ s. find_by_token_id token_id s.sessions)
  held ← or_raise session_was_revoked (unless (env.fails find_session) found)
  require (is_active env.now held) session_was_revoked)

-- `verifier.Verify`, any error as the one of the service.
unfoldable pub verified : Env → String → Option Principal
verified env token = elim (verify env.parse_token token) [
  | Verified.err _ ↦ none
  | Verified.ok p ↦ some p
]

-- The branch for a JWT.
unfoldable pub validate_jwt : Env → String → Exec Validated
unfolding confirm_session verified find_user
validate_jwt env token = do
  p ← or_raise token_invalid (verified env token)
  confirm_session env p
  user_id ← or_raise token_invalid (env.parse_uuid p.user_id)
  found ← gets (find_user user_id)
  u ← or_raise account_deleted (unless (env.fails finds) found)
  require (not u.is_suspended) account_suspended
  pure (record { principal = p; holder = person u })

-- validateMachineKey, of a key that names no person.
unfoldable pub validate_machine_key : Env → ApiKey → Exec Validated
unfolding find_company
validate_machine_key env k = do
  role ← or_raise token_invalid k.role_id
  company_id ← or_raise token_invalid k.company_id
  found ← gets (find_company company_id)
  company ← or_raise token_invalid (unless (env.fails finds_company) found)
  require (not company.is_suspended) account_suspended
  access ← or_raise internal (env.build_access_for_role role k.company_id)
  pure (record {
    principal = record {
      user_id = env.uuid_text k.id;
      company_id = env.uuid_text company_id;
      fms_tenant_id = zero_if_nil company.fms_tenant_id;
      fms_user_id = 0;
      is_platform_staff = false;
      access = access;
      single_device = false;
      token_id = "";
    };
    holder = machine k company;
  })

-- The rest of validateAPIKey, of a key that names a person.
unfoldable pub validate_user_key : Env → Uuid → Exec Validated
unfolding find_user
validate_user_key env user_id = do
  found ← gets (find_user user_id)
  u ← or_raise token_invalid (unless (env.fails finds) found)
  require (not u.is_suspended) account_suspended
  access ← or_raise internal (env.build_access u.id u.company_id)
  pure (record {
    principal = record {
      user_id = env.uuid_text u.id;
      company_id = text_or_empty env.uuid_text u.company_id;
      fms_tenant_id = 0;
      fms_user_id = 0;
      is_platform_staff = u.is_platform_staff;
      access = access;
      single_device = false;
      token_id = "";
    };
    holder = person u;
  })

-- A key with a person acts as the person, one without as its company.
unfoldable pub validate_key_holder : Env → ApiKey → Option Uuid → Exec Validated
unfolding validate_machine_key validate_user_key
validate_key_holder env k none = validate_machine_key env k
validate_key_holder env k (some user_id) = validate_user_key env user_id

-- validateAPIKey
unfoldable pub validate_api_key : Env → String → Exec Validated
unfolding validate_key_holder is_usable find_key
validate_api_key env key = do
  found ← gets (find_key (env.hash_token key))
  k ← or_raise token_invalid (unless (env.fails finds_key) found)
  require (is_usable env.now k) token_invalid
  validate_key_holder env k k.user_id

-- ValidateToken: a credential with two dots is a JWT, any other an API key.
unfoldable pub validate_token : Env → String → Exec Validated
unfolding validate_jwt validate_api_key trim_space count_of
validate_token env raw =
    let token = trim_space raw in
    if token == ""
    then raise token_invalid
    else if not (nat_eq (count_of "." token) 2)
    then validate_api_key env token
    else validate_jwt env token

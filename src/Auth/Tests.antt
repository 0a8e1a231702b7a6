-- ===== src/Auth/Tests.antt =====
-- Concrete runs of the authentication service.
use authentication_service.Prelude.{
  ℕ, String, true, false, [], ◌∷◌, Option, none, some, ◌==◌, nat_eq, if◌then◌else◌, ◌≡◌, ◌↔◌, refl,
  inl, inr, eq_iff,
}
use authentication_service.Prelude.Text.{
  trim_space, trim_left, trim_right, is_space, count_of, split, cut, split_from,
}
use authentication_service.Authctx.Principal.{Principal, no_principal}
use authentication_service.Authctx.Verifier.{verify, parse_claims}
use authentication_service.Revocation.Held.{user}
use authentication_service.Auth.Store.{User, Session, Store, Env, is_active}
use authentication_service.Auth.Exec.{ok, err, Error, session_was_revoked}
use authentication_service.Auth.Sessions.{
  first, find_user, find_by_identifier, find_by_refresh_hash, find_by_token_id, revoke_row,
  revoke_where, create_session, revoke_session, revoke_others, is_other_device, evictions,
}
use authentication_service.Auth.Tokens.{
  TokenPair, mint, principal_of, device_limit, session_of, evict_others, issue_session,
  nil_if_empty,
}
use authentication_service.Auth.Login.{
  LoginInput, LoginResult, login, limited, is_rate_limited, audited, admit, check_user,
}
use authentication_service.Auth.Refresh.{refresh, rotate, renewed, user_or_none}
use authentication_service.Auth.Account.{logout}
use authentication_service.Auth.Validate.{
  person, validate_token, validate_jwt, confirm_session, verified,
}
use authentication_service.Auth.Credentials.{Admissible, login-ok_iff}
use authentication_service.Auth.Rotation.{refresh-refresh}
use authentication_service.Auth.Standing.{InGoodStanding, validate_token-standing}
use authentication_service.Auth.Ended.{validate_token-logout}
use authentication_service.Auth.Eviction.{login-one_device}

-- A driver who may hold one device, with one session on another.
abbrev driver : User
driver = record {
  id = 1;
  email = some "budi@karlo.id";
  username = some "budi";
  phone = none;
  password_hash = "h:rahasia";
  is_suspended = false;
  is_platform_staff = false;
  max_devices = 1;
  fms_user_id = none;
  company_id = none;
  company = none;
  role_id = none;
}

abbrev old_phone : Session
old_phone = record {
  user_id = 1;
  token_id = 10;
  refresh_hash = some "#first";
  single_device = true;
  device_id = none;
  expires_at = 1000;
  revoked_at = none;
}

abbrev tables : Store
tables = record {
  users = driver ∷ [];
  sessions = old_phone ∷ [];
  api_keys = [];
  companies = [];
  announced = [];
  audit = [];
}

-- The principal of the old session's token.
abbrev held : Principal
held = record no_principal { user_id = "1"; single_device = true; token_id = "10" }

abbrev one_or_ten : ℕ → String
one_or_ten n = if nat_eq n 1 then "1" else if nat_eq n 10 then "10" else "11"

abbrev number : String → Option ℕ
number s = if s == "1" then some 1 else if s == "10" then some 10 else none

abbrev folded : String → String
folded s = if s == "BUDI" then "budi" else s

abbrev request : Env
request = record {
  now = 100;
  fails = λ op. false;
  new_token_id = 11;
  new_refresh = "second";
  hash_token = λ t. Prim.Native.String.◌++◌ "#" t;
  fold = folded;
  hash_password = λ p. Prim.Native.String.◌++◌ "h:" p;
  compare_password = λ hash p. hash == Prim.Native.String.◌++◌ "h:" p;
  uuid_text = one_or_ten;
  parse_uuid = number;
  counted = some 1;
  failures = none;
  login_rate_limit = 5;
  access_token_ttl = 10;
  refresh_token_ttl = 500;
  build_access = λ u c. some [];
  build_access_for_role = λ r c. some [];
  sign = λ p at until. some "a.b.c";
  parse_token = λ t. some (record { principal = held; issued_at = some 90 }, true);
}

-- The username, written otherwise than it is stored.
abbrev attempt : LoginInput
attempt = record { identifier = "BUDI"; password = "rahasia"; device_id = "" }

abbrev wrong : LoginInput
wrong = record { identifier = "budi"; password = "salah"; device_id = "" }

abbrev new_pair : TokenPair
new_pair = record {
  access_token = "a.b.c";
  refresh_token = "second";
  expires_at = 110;
  user_id = 1;
}

abbrev admitted : LoginResult
admitted = record { tokens = new_pair; user = driver }

login_run : (login request attempt tables).0 ≡ ok admitted
unfolding login limited is_rate_limited find_by_identifier first trim_space trim_left trim_right
    is_space check_user admit audited issue_session mint principal_of device_limit session_of
    evict_others create_session revoke_others nil_if_empty
login_run = refl

login-ok_iff_example :
    ((r : LoginResult) × ((login request attempt tables).0 ≡ ok r))
    ↔ Admissible request attempt tables
login-ok_iff_example =
    login-ok_iff request attempt tables (λ op. refl) (λ p at until. ("a.b.c", refl))

-- The old session after the login, which has ended it.
abbrev ended_phone : Session
ended_phone = record old_phone { revoked_at = some 100 }

abbrev new_phone : Session
new_phone = record {
  user_id = 1;
  token_id = 11;
  refresh_hash = some "#second";
  single_device = true;
  device_id = none;
  expires_at = 600;
  revoked_at = none;
}

login-one_device_example : new_phone.token_id ≡ request.new_token_id
unfolding login limited is_rate_limited find_by_identifier first trim_space trim_left trim_right
    is_space check_user admit audited issue_session mint principal_of device_limit session_of
    evict_others create_session revoke_others nil_if_empty revoke_where revoke_row is_other_device
    evictions
login-one_device_example =
    login-one_device request attempt tables admitted new_phone refl refl refl (inr (inl refl)) refl
      refl refl

refresh-refresh_example :
    (e : Error) × (refresh request "first" (refresh request "first" tables).1
      ≡ (err e, (refresh request "first" tables).1))
unfolding refresh rotate renewed user_or_none find_by_refresh_hash find_user first is_active mint
    principal_of session_of create_session revoke_session
refresh-refresh_example = refresh-refresh request request "first" tables new_pair refl refl

validate_token-standing_example : InGoodStanding request tables (person driver)
unfolding validate_token validate_jwt confirm_session verified verify parse_claims find_by_token_id
    find_user first is_active trim_space trim_left trim_right is_space count_of split split_from cut
validate_token-standing_example =
    validate_token-standing request "a.b.c" tables
      (record { principal = held; holder = person driver }) refl

validate_token-logout_example :
    validate_token request "a.b.c" (logout request 10 1 tables).1
    ≡ (err session_was_revoked, (logout request 10 1 tables).1)
unfolding logout audited verified verify parse_claims trim_space trim_left trim_right is_space
    count_of split split_from cut
validate_token-logout_example =
    validate_token-logout request request 10 1 "a.b.c" held tables refl (λ h. cc h) refl refl refl
      (λ h. cc ((eq_iff "10" "").1 h)) refl

abbrev outage : Env
outage = record request { build_access = λ u c. none }

-- ===== src/Auth/Login.antt =====
-- Login and the rate limiter (internal/services/auth_service.go).
use authentication_service.Prelude.{
  String, Bool, false, not, ◌||◌, [], ◌∷◌, ◌++◌, Option, none, some, ◌==◌, ltb, leb, if◌then◌else◌,
}
use authentication_service.Prelude.Text.{trim_space}
use authentication_service.Auth.Store.{
  User, Env, find_user as finds, write_audit, Audit, login_failure, login_success,
}
use authentication_service.Auth.Exec.{
  Exec, Error, invalid_credentials, account_suspended, rate_limited, internal, ◌>>=◌, ◌>>◌, pure,
  raise, gets, require, or_warn,
}
use authentication_service.Auth.Sessions.{find_by_identifier}
use authentication_service.Auth.Tokens.{TokenPair, issue_session}

pub record LoginInput : Type 0 where
  pub identifier : String
  pub password : String
  pub device_id : String

pub record LoginResult : Type 0 where
  pub tokens : TokenPair
  pub user : User

-- isRateLimited: the cache's counter decides, and the audit log where the cache has no answer; none
-- where neither has.
unfoldable pub is_rate_limited : Env → Option Bool
is_rate_limited env = elim env.counted [
  | some count ↦ some (ltb env.login_rate_limit count)
  | none ↦ elim env.failures [ some count ↦ some (leb env.login_rate_limit count) | none ↦ none ]
]

-- A limiter that cannot tell lets the attempt through.
unfoldable pub limited : Env → Bool
unfolding is_rate_limited
limited env = elim (is_rate_limited env) [ none ↦ false | some b ↦ b ]

-- writeAudit never fails its caller.
unfoldable pub audited : Env → Audit → Exec (Unit {0})
audited env entry =
    or_warn (env.fails write_audit) (λ s. record s { audit = s.audit ++ entry ∷ [] })

-- recordLoginFailure, and the error.
unfoldable pub refuse : Env → String → String → Error → Exec LoginResult
unfolding audited
refuse env identifier reason e = do audited env (login_failure identifier reason); raise e

-- What follows once the user is found and the password compared.
unfoldable pub admit : Env → User → String → LoginInput → Exec LoginResult
unfolding audited
admit env u identifier input = do
  tokens ← issue_session env u input.device_id
  audited env (login_success u.id identifier)
  pure (record { tokens = tokens; user = u })

unfoldable pub check_user : Env → String → LoginInput → Option User → Exec LoginResult
unfolding refuse admit
check_user env identifier input none = refuse env identifier "user not found" invalid_credentials
check_user env identifier input (some u) =
    if not (env.compare_password u.password_hash input.password)
    then refuse env identifier "bad password" invalid_credentials
    else if u.is_suspended
    then refuse env identifier "suspended" account_suspended
    else admit env u identifier input

-- Login. The counter that success clears and the time of the last login are not in the store.
unfoldable pub login : Env → LoginInput → Exec LoginResult
unfolding check_user limited find_by_identifier trim_space
login env input = do
  let identifier = trim_space input.identifier
  require (not (identifier == "" || input.password == "")) invalid_credentials
  require (not (limited env)) rate_limited
  require (not (env.fails finds)) internal
  found ← gets (find_by_identifier env.fold identifier)
  check_user env identifier input found

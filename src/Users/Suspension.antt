-- ===== src/Users/Suspension.antt =====
-- A suspended user is shut out of every operation that reads the tables.
use authentication_service.Prelude.{String, some, ◌≡◌}
use authentication_service.Revocation.Held.{user}
use authentication_service.Authctx.Principal.{Principal}
use authentication_service.Auth.Store.{Uuid, User, Session, Store, Env}
use authentication_service.Auth.Exec.{ok}
use authentication_service.Auth.Sessions.{find_by_refresh_hash}
use authentication_service.Auth.Login.{LoginInput, LoginResult, login}
use authentication_service.Auth.Tokens.{TokenPair}
use authentication_service.Auth.Refresh.{refresh}
use authentication_service.Auth.Validate.{Validated, person, validate_token}
use authentication_service.Users.Directory.{Directory}

-- An operation lets a user in: a login, a refresh, or a token or an API key that is accepted.
pub data LetsIn (env : Env) (s : Store) : Uuid → Type 0 where
  by_password :
      (input : LoginInput) (r : LoginResult) → (login env input s).0 ≡ ok r → LetsIn env s r.user.id
  by_refresh :
      (token : String) (pair : TokenPair) (old : Session)
      → (refresh env token s).0 ≡ ok pair
      → find_by_refresh_hash (env.hash_token token) s.sessions ≡ some old
      → LetsIn env s old.user_id
  by_credential :
      (raw : String) (v : Validated) (u : User)
      → (validate_token env raw s).0 ≡ ok v
      → v.holder ≡ person u
      → LetsIn env s u.id

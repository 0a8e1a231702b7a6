-- ===== src/Auth/Account.antt =====
-- Logout, LogoutAll and ChangePassword (internal/services/auth_service.go).
use authentication_service.Prelude.{
  ℕ, String, Bool, true, false, not, List, [], ◌∷◌, ltb, nat_eq, length, keep, if◌then◌else◌,
}
use Prim.Native.String.{len}
use authentication_service.Auth.Store.{
  Uuid, User, Store, Env, revoke_session as revokes, revoke_all as revokes_all, find_user as finds,
  update_user, bcrypt, logged_out, session_revoked, password_changed,
}
use authentication_service.Auth.Exec.{
  Exec, invalid_credentials, weak_password, internal, ◌>>=◌, ◌>>◌, pure, raise, gets, modify,
  require, or_raise, or_warn,
}
use authentication_service.Auth.Sessions.{find_user, revoke_session, revoke_all, live_of}
use authentication_service.Auth.Login.{audited}

abbrev pub min_password_length : ℕ
min_password_length = 6

-- ValidatePasswordStrength: `len` counts bytes, as Go's does.
unfoldable pub is_strong : String → Bool
is_strong password =
    if ltb (len password) min_password_length then false else not (ltb 72 (len password))

-- Logout; the push token of the device is not in the store.
unfoldable pub logout : Env → Uuid → Uuid → Exec (Unit {0})
unfolding revoke_session audited
logout env token_id user_id = do
  require (not (env.fails revokes)) internal
  modify (revoke_session env.now token_id)
  audited env (logged_out user_id)

-- LogoutAll: the number of sessions that ended.
unfoldable pub logout_all : Env → Uuid → Exec ℕ
unfolding revoke_all audited live_of
logout_all env user_id = do
  require (not (env.fails revokes_all)) internal
  n ← gets (λ s. length (keep (live_of user_id) s.sessions))
  modify (revoke_all env.now env.uuid_text user_id)
  audited env (session_revoked user_id n)
  pure n

-- `UPDATE users SET password_hash = … WHERE id = …`
unfoldable pub set_password : Uuid → String → List User → List User
set_password id hash [] = []
set_password id hash (u ∷ us) =
    (if nat_eq u.id id then record u { password_hash = hash } else u) ∷ set_password id hash us

unfoldable pub update_password : Uuid → String → Store → Store
unfolding set_password
update_password id hash s = record s { users = set_password id hash s.users }

-- What follows once the old password is confirmed.
unfoldable pub replace_password : Env → Uuid → String → Exec (Unit {0})
unfolding is_strong update_password revoke_all audited
replace_password env user_id new_password = do
  require (is_strong new_password) weak_password
  require (not (env.fails bcrypt)) internal
  require (not (env.fails update_user)) internal
  modify (update_password user_id (env.hash_password new_password))
  or_warn (env.fails revokes_all) (revoke_all env.now env.uuid_text user_id)
  audited env (password_changed user_id true)

-- ChangePassword
unfoldable pub change_password : Env → Uuid → String → String → Exec (Unit {0})
unfolding replace_password find_user
change_password env user_id old_password new_password = do
  require (not (env.fails finds)) internal
  found ← gets (find_user user_id)
  u ← or_raise internal found
  if not (env.compare_password u.password_hash old_password)
      then (do audited env (password_changed user_id false); raise invalid_credentials)
      else replace_password env user_id new_password

-- ===== src/Auth/Refresh.antt =====
-- Refresh (internal/services/auth_service.go).
use authentication_service.Prelude.{String, not, Option, none, if◌then◌else◌}
use authentication_service.Auth.Store.{
  User, Session, Env, find_session, find_user as finds, random_bytes, revoke_session as revokes,
  create_session as creates, is_active,
}
use authentication_service.Auth.Exec.{
  Exec, token_invalid, session_was_revoked, account_suspended, internal, ◌>>=◌, ◌>>◌, pure, gets,
  modify, require, or_raise,
}
use authentication_service.Auth.Sessions.{
  find_by_refresh_hash, find_user, revoke_session, create_session,
}
use authentication_service.Auth.Tokens.{TokenPair, mint, session_of}

-- The new session keeps the device of the old one, and its single-device mark.
unfoldable pub renewed : Env → User → Session → Session
unfolding session_of
renewed env u old = session_of env u old.single_device old.device_id

-- What follows once the session and its user are found and may go on.
unfoldable pub rotate : Env → User → Session → Exec TokenPair
unfolding renewed mint revoke_session create_session
rotate env u old = do
  require (not (env.fails random_bytes)) internal
  require (not (env.fails revokes)) internal
  modify (revoke_session env.now old.token_id)
  require (not (env.fails creates)) internal
  modify (create_session (renewed env u old))
  (token, expires) ← mint env u env.new_token_id old.single_device
  pure (record {
    access_token = token;
    refresh_token = env.new_refresh;
    expires_at = expires;
    user_id = u.id;
  })

-- A user that is not found and one that cannot be looked up are one error.
unfoldable pub user_or_none : Env → Option User → Option User
user_or_none env found = if env.fails finds then none else found

-- Refresh
unfoldable pub refresh : Env → String → Exec TokenPair
unfolding rotate find_by_refresh_hash find_user is_active user_or_none
refresh env refresh_token = do
  require (not (env.fails find_session)) internal
  found ← gets (λ s. find_by_refresh_hash (env.hash_token refresh_token) s.sessions)
  old ← or_raise token_invalid found
  require (is_active env.now old) session_was_revoked
  holder ← gets (find_user old.user_id)
  u ← or_raise token_invalid (user_or_none env holder)
  require (not u.is_suspended) account_suspended
  rotate env u old

-- ===== src/Auth/Rotation.antt =====
-- Refresh tokens (Refresh of internal/services/auth_service.go) work once.
use authentication_service.Prelude.{
  String, true, false, [], ◌∷◌, some, nat_eq, nat_eq_iff, ◌≡◌, refl, ap, arith, Option-cases,
  Bool-cases, inl, inr,
}
use authentication_service.Auth.Store.{User, Session, Store, Env, is_active, find_session}
use authentication_service.Auth.Exec.{ok, err, Error}
use authentication_service.Auth.Sessions.{
  find_by_refresh_hash, find_user, revoke_session, create_session, is_text, revoke_row,
}
use authentication_service.Auth.Rows.{first-revoke_where, revoke_row-hash, revoke_row-taken}
use authentication_service.Auth.Tokens.{TokenPair, mint}
use authentication_service.Auth.Refresh.{refresh, rotate, renewed, user_or_none}

-- The row that `find_by_refresh_hash` finds, once its token id is revoked.
find_revoked :
    (env : Env) (hash : String) (s : Store) (old new : Session)
    → find_by_refresh_hash hash s.sessions ≡ some old
    → find_by_refresh_hash hash
        (create_session new (revoke_session env.now old.token_id s)).sessions
      ≡ some (revoke_row env.now (λ x. nat_eq x.token_id old.token_id) old)
unfolding find_by_refresh_hash create_session revoke_session
find_revoked env hash s old new h =
    first-revoke_where env.now (λ x. nat_eq x.token_id old.token_id)
      (λ x. is_text x.refresh_hash hash)
      (λ x. ap (λ t. is_text t hash) (revoke_row-hash env.now _ x)) s.sessions old (new ∷ []) h

rotate-sessions :
    (env : Env) (u : User) (old : Session) (s : Store) (pair : TokenPair)
    → (rotate env u old s).0 ≡ ok pair
    → (rotate env u old s).1
      ≡ create_session (renewed env u old) (revoke_session env.now old.token_id s)
unfolding rotate mint
rotate-sessions env u old s pair h = ground arith

-- What a refresh that succeeds has found, and the store that it leaves.
pub refresh-found :
    (env : Env) (token : String) (s : Store) (pair : TokenPair)
    → (refresh env token s).0 ≡ ok pair
    → (old : Session) × (u : User) × (find_by_refresh_hash (env.hash_token token) s.sessions
        ≡ some old)
      × (is_active env.now old ≡ true)
      × (find_user old.user_id s ≡ some u)
      × (u.is_suspended ≡ false)
      × ((refresh env token s).1
          ≡ create_session (renewed env u old) (revoke_session env.now old.token_id s))
unfolding refresh user_or_none
refresh-found env token s pair h =
    elim (Option-cases (find_by_refresh_hash (env.hash_token token) s.sessions)) [
      | inl missing ↦ absurd (ground arith)
      | inr (old, found) ↦ elim (Option-cases (find_user old.user_id s)) [
        | inl missing ↦ absurd (ground arith)
        | inr (u, holder) ↦ (
          old,
          u,
          found,
          ground arith,
          holder,
          ground arith,
          ground (arith, rotate-sessions env u old s pair),
        )
      ]
    ]

refused_lem :
    (env : Env) (token : String) (s : Store) (x : Session)
    → find_by_refresh_hash (env.hash_token token) s.sessions ≡ some x
    → is_active env.now x ≡ false
    → (e : Error) × (refresh env token s ≡ (err e, s))
unfolding refresh
refused_lem env token s x found dead = elim (Bool-cases (env.fails find_session)) [
  | inl down ↦ (Error.internal, ground arith)
  | inr up ↦ (Error.session_was_revoked, ground arith)
]

-- A refresh token works once: straight after a refresh that succeeded, each refresh with the same
-- token, under the same hash, fails, at any time and whatever else fails, and leaves the store as it
-- is.
pub refresh-refresh :
    (env later : Env) (token : String) (s : Store) (pair : TokenPair)
    → later.hash_token token ≡ env.hash_token token
    → (refresh env token s).0 ≡ ok pair
    → (e : Error) × (refresh later token (refresh env token s).1 ≡ (err e, (refresh env token s).1))
unfolding is_active
refresh-refresh env later token s pair same h =
    let (old, u, found, active, holder, free, left) = refresh-found env token s pair h in
    let p = λ (x : Session). nat_eq x.token_id old.token_id in
    let taken = revoke_row-taken env.now p old ((nat_eq_iff old.token_id old.token_id).1 refl) in
    let again = find_revoked env (env.hash_token token) s old (renewed env u old) found in
    refused_lem later token (refresh env token s).1 (revoke_row env.now p old)
      (rw (same, left) again) (ground (arith, taken))

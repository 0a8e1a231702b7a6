-- ===== src/Auth/Ended.antt =====
-- A logout ends a single-device token at once (Logout and ValidateToken of
-- internal/services/auth_service.go).
use authentication_service.Prelude.{
  String, true, false, List, [], ◌∷◌, some, nat_eq, nat_eq_iff, eq_iff, ◌≡◌, ◌≢◌, arith,
  Option-cases, Bool-cases, inl, inr,
}
use authentication_service.Prelude.Text.{trim_space, count_of}
use authentication_service.Authctx.Principal.{Principal}
use authentication_service.Revocation.Held.{Time}
use authentication_service.Auth.Store.{Uuid, Session, Store, Env, is_active}
use authentication_service.Auth.Exec.{ok, err, session_was_revoked}
use authentication_service.Auth.Sessions.{
  first, find_by_token_id, revoke_where, revoke_row, revoke_session,
}
use authentication_service.Auth.Rows.{revoke_row-taken, revoke_row-token_id}
use authentication_service.Auth.Login.{audited}
use authentication_service.Auth.Account.{logout}
use authentication_service.Auth.Validate.{validate_token, validate_jwt, confirm_session, verified}

logout-left :
    (env : Env) (token_id user_id : Uuid) (s : Store)
    → (logout env token_id user_id s).0 ≡ ok tt
    → (logout env token_id user_id s).1.sessions
      ≡ revoke_where env.now (λ x. nat_eq x.token_id token_id) s.sessions
unfolding logout audited revoke_session
logout-left env token_id user_id s h = ground arith

-- After the update, no row that the look-up by the token id finds is active.
find_by_token_id-revoked :
    (now later : Time) (id : Uuid) (xs : List Session) (x : Session)
    → find_by_token_id id (revoke_where now (λ y. nat_eq y.token_id id) xs) ≡ some x
    → is_active later x ≡ false
unfolding find_by_token_id first revoke_where is_active
find_by_token_id-revoked now later id [] x h = absurd (cc)
find_by_token_id-revoked now later id (y ∷ ys) x h =
    let p = λ (z : Session). nat_eq z.token_id id in
    elim (Bool-cases (p y)) [
      | inl here ↦
          let same : revoke_row now p y ≡ x = ground (arith, revoke_row-token_id now p y) in
          ground (arith, rw same at (revoke_row-taken now p y here))
      | inr other ↦
          find_by_token_id-revoked now later id ys x (ground (arith, revoke_row-token_id now p y))
    ]

confirm_session-ended :
    (env : Env) (p : Principal) (id : Uuid) (s : Store)
    → p.single_device ≡ true
    → p.token_id ≢ ""
    → env.parse_uuid p.token_id ≡ some id
    → ((x : Session) → find_by_token_id id s.sessions ≡ some x → is_active env.now x ≡ false)
    → confirm_session env p s ≡ (err session_was_revoked, s)
unfolding confirm_session
confirm_session-ended env p id s single named parsed ended =
    elim (Option-cases (find_by_token_id id s.sessions)) [
      | inl gone ↦ ground (arith, eq_iff p.token_id "")
      | inr (x, found) ↦ ground (arith, ended x, eq_iff p.token_id "")
    ]

-- Once a logout has succeeded, every single-device token of that session is refused as revoked, at
-- any later validation and before the token expires, and a validation changes nothing.
pub validate_token-logout :
    (env later : Env) (token_id user_id : Uuid) (raw : String) (p : Principal) (s : Store)
    → (logout env token_id user_id s).0 ≡ ok tt
    → trim_space raw ≢ ""
    → count_of "." (trim_space raw) ≡ 2
    → verified later (trim_space raw) ≡ some p
    → p.single_device ≡ true
    → p.token_id ≢ ""
    → later.parse_uuid p.token_id ≡ some token_id
    → validate_token later raw (logout env token_id user_id s).1
      ≡ (err session_was_revoked, (logout env token_id user_id s).1)
unfolding validate_token validate_jwt
validate_token-logout env later token_id user_id raw p s h given jwt good single named parsed =
    let t = (logout env token_id user_id s).1 in
    let ended = confirm_session-ended later p token_id t single named parsed (λ x found.
      find_by_token_id-revoked env.now later.now token_id s.sessions x
        (rw (logout-left env token_id user_id s h) at found)) in
    ground (arith, ended, eq_iff (trim_space raw) "", nat_eq_iff (count_of "." (trim_space raw)) 2)

-- ===== src/Auth/Eviction.antt =====
-- The one-device rule (issueSession of internal/services/auth_service.go).
use authentication_service.Prelude.{
  String, true, false, ◌&&◌, List, [], ◌∷◌, nat_eq_iff, ◌≡◌, ◌≢◌, ap, arith, inl, inr, Elem, keep,
  Elem-keep, Elem-append_left, Elem-append_right,
}
use authentication_service.Revocation.Held.{session, Time}
use authentication_service.Auth.Store.{Uuid, User, Session, Store, Env, evict, is_nil}
use authentication_service.Auth.Exec.{ok}
use authentication_service.Auth.Sessions.{create_session, is_other_device, revoke_others, evictions}
use authentication_service.Auth.Rows.{Elem-revoke_where, revoke_row-live}
use authentication_service.Auth.Tokens.{evict_others, device_limit, session_of, nil_if_empty}
use authentication_service.Auth.Login.{LoginInput, LoginResult, login}
use authentication_service.Auth.Admission.{login-admitted, issued}

revoke_others-live :
    (now : Time) (text : Uuid → String) (id kept : Uuid) (s : Store) (x : Session)
    → Elem x (revoke_others now text id kept s).sessions
    → x.user_id ≡ id
    → x.single_device ≡ true
    → is_nil x.revoked_at ≡ true
    → (x.token_id ≡ kept) × Elem x s.sessions
unfolding revoke_others is_other_device
revoke_others-live now text id kept s x among mine single live =
    let p = is_other_device id kept in
    let (y, there, is_y) = Elem-revoke_where now p x s.sessions among in
    let (spared, same) = revoke_row-live now p y (rw (← is_y) live) in
    let is_x : x ≡ y = cc (is_y, same) in
    let spared_x : is_other_device id kept x ≡ false = rw is_x spared in
    (ground (arith, spared_x, nat_eq_iff x.token_id kept), rw is_x there)

evictions_lem :
    (now : Time) (text : Uuid → String) (y : Session) (xs : List Session)
    → Elem y xs
    → Elem (record { kind = session; id = text y.token_id; at = now }) (evictions now text xs)
unfolding evictions
evictions_lem now text y [] h = absurd h
evictions_lem now text y (x ∷ xs) (inl here) =
    inl (ap (λ (z : Session). record { kind = session; id = text z.token_id; at = now }) here)
evictions_lem now text y (x ∷ xs) (inr later) = inr (evictions_lem now text y xs later)

issued_one :
    (env : Env) (u : User) (device : String) (s : Store)
    → device_limit u ≡ 1
    → env.fails evict ≡ false
    → issued env u device s
      ≡ revoke_others env.now env.uuid_text u.id env.new_token_id
          (create_session (session_of env u true (nil_if_empty device)) s)
unfolding evict_others
issued_one env u device s one evicts = ground arith

-- With a device limit of one, and an eviction that does not fail, a login that succeeds leaves the
-- user one live single-device session at most: it is the one that the login has made.
pub login-one_device :
    (env : Env) (input : LoginInput) (s : Store) (r : LoginResult) (x : Session)
    → (login env input s).0 ≡ ok r
    → device_limit r.user ≡ 1
    → env.fails evict ≡ false
    → Elem x (login env input s).1.sessions
    → x.user_id ≡ r.user.id
    → x.single_device ≡ true
    → is_nil x.revoked_at ≡ true
    → x.token_id ≡ env.new_token_id
login-one_device env input s r x h one evicts among mine single live =
    let (_, _, _, _, _, _, sessions, _) = login-admitted env input s r h in
    let left = issued_one env r.user input.device_id s one evicts in
    let after = rw (sessions, left) at among in
    (revoke_others-live env.now env.uuid_text r.user.id env.new_token_id
      (create_session (session_of env r.user true (nil_if_empty input.device_id)) s) x after mine
      single live).0

-- With a device limit of one, and an eviction that does not fail, a login that succeeds announces
-- each other live single-device session of the user as ended, at the time of the login.
pub login-announced :
    (env : Env) (input : LoginInput) (s : Store) (r : LoginResult) (x : Session)
    → (login env input s).0 ≡ ok r
    → device_limit r.user ≡ 1
    → env.fails evict ≡ false
    → Elem x s.sessions
    → x.user_id ≡ r.user.id
    → x.single_device ≡ true
    → is_nil x.revoked_at ≡ true
    → x.token_id ≢ env.new_token_id
    → Elem
        (record { kind = session; id = env.uuid_text x.token_id; at = env.now })
        (login env input s).1.announced
unfolding revoke_others create_session is_other_device
login-announced env input s r x h one evicts among mine single live other =
    let (_, _, _, _, _, _, _, announced) = login-admitted env input s r h in
    let left = issued_one env r.user input.device_id s one evicts in
    let rows =
      (create_session (session_of env r.user true (nil_if_empty input.device_id)) s).sessions in
    let gone =
      λ (y : Session). is_other_device r.user.id env.new_token_id y && is_nil y.revoked_at in
    let kept = (Elem-keep gone x rows).1 (
      Elem-append_left x s.sessions _ among,
      ground (arith, nat_eq_iff x.token_id env.new_token_id, nat_eq_iff x.user_id r.user.id),
    ) in
    rw (announced, left)
      (Elem-append_right _ s.announced _
        (evictions_lem env.now env.uuid_text x (keep gone rows) kept))

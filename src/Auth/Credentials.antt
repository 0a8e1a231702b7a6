-- ===== src/Auth/Credentials.antt =====
-- Which credentials a login takes (Login of internal/services/auth_service.go).
use authentication_service.Prelude.{
  ◌+◌, String, true, false, Option, none, some, nat_eq, eq_iff, ◌≡◌, ◌≢◌, ◌↔◌, refl, arith, inl,
  inr,
}
use authentication_service.Prelude.Text.{trim_space}
use authentication_service.Authctx.Principal.{Principal}
use authentication_service.Revocation.Held.{Time}
use authentication_service.Auth.Store.{User, Store, Env, Op}
use authentication_service.Auth.Exec.{ok, err, Error, internal, Result-cases}
use authentication_service.Auth.Sessions.{find_by_identifier}
use authentication_service.Auth.Tokens.{
  TokenPair, mint, issue_session, evict_others, device_limit, principal_of,
}
use authentication_service.Auth.Login.{
  LoginInput, LoginResult, login, limited, check_user, refuse, admit, audited,
}
use authentication_service.Auth.Admission.{login-admitted}

-- What a login asks for: an identifier and a password, a limiter that lets it pass, a user with the
-- identifier, the right password, and no suspension.
abbrev pub Admissible : Env → LoginInput → Store → Type 0
Admissible env input s =
    (u : User) × (trim_space input.identifier ≢ "")
    × (input.password ≢ "")
    × (limited env ≡ false)
    × (find_by_identifier env.fold (trim_space input.identifier) s ≡ some u)
    × (env.compare_password u.password_hash input.password ≡ true)
    × (u.is_suspended ≡ false)

issue_session-ok :
    (env : Env) (u : User) (device : String) (s : Store)
    → ((op : Op) → env.fails op ≡ false)
    → ((p : Principal) (at until : Time) → (t : String) × (env.sign p at until ≡ some t))
    → (pair : TokenPair) × ((issue_session env u device s).0 ≡ ok pair)
unfolding issue_session mint evict_others
issue_session-ok env u device s sound signs =
    let single = nat_eq (device_limit u) 1 in
    let (t, signed) =
      signs (principal_of env u env.new_token_id single) env.now (env.now + env.access_token_ttl) in
    (
      record {
        access_token = t;
        refresh_token = env.new_refresh;
        expires_at = env.now + env.access_token_ttl;
        user_id = u.id;
      },
      ground (arith, sound Op.random_bytes, sound Op.create_session, signed),
    )

admit-ok :
    (env : Env) (u : User) (name : String) (input : LoginInput) (s : Store)
    → ((op : Op) → env.fails op ≡ false)
    → ((p : Principal) (at until : Time) → (t : String) × (env.sign p at until ≡ some t))
    → (r : LoginResult) × ((admit env u name input s).0 ≡ ok r)
unfolding admit audited
admit-ok env u name input s sound signs =
    let (pair, issues) = issue_session-ok env u input.device_id s sound signs in
    (record { tokens = pair; user = u }, ground (arith, issues))

check_user-admits :
    (env : Env) (name : String) (input : LoginInput) (u : User) (s : Store)
    → env.compare_password u.password_hash input.password ≡ true
    → u.is_suspended ≡ false
    → check_user env name input (some u) s ≡ admit env u name input s
unfolding check_user
check_user-admits env name input u s correct free = rw (correct, free) refl

issue_session-err :
    (env : Env) (u : User) (device : String) (s : Store) (e : Error)
    → (issue_session env u device s).0 ≡ err e
    → e ≡ internal
unfolding issue_session mint evict_others
issue_session-err env u device s e h = ground arith

admit-err :
    (env : Env) (u : User) (name : String) (input : LoginInput) (s : Store) (e : Error)
    → (admit env u name input s).0 ≡ err e
    → e ≡ internal
unfolding admit audited
admit-err env u name input s e h = elim (Result-cases (issue_session env u input.device_id s).0) [
  | inl (pair, issues) ↦ absurd (ground arith)
  | inr (d, fails) ↦ issue_session-err env u input.device_id s e (ground arith)
]

check_user-kept :
    (env : Env) (name : String) (input : LoginInput) (found : Option User) (s : Store) (e : Error)
    → (check_user env name input found s).0 ≡ err e
    → e ≢ internal
    → ((check_user env name input found s).1.users ≡ s.users)
      × ((check_user env name input found s).1.sessions ≡ s.sessions)
      × ((check_user env name input found s).1.announced ≡ s.announced)
unfolding check_user refuse audited
check_user-kept env name input none s e h other = ground arith
check_user-kept env name input (some u) s e h other = ground (arith, admit-err env u name input s e)

-- Where no call fails, a login succeeds exactly with credentials that it asks for.
pub login-ok_iff :
    (env : Env) (input : LoginInput) (s : Store)
    → ((op : Op) → env.fails op ≡ false)
    → ((p : Principal) (at until : Time) → (t : String) × (env.sign p at until ≡ some t))
    → ((r : LoginResult) × ((login env input s).0 ≡ ok r)) ↔ Admissible env input s
unfolding login
login-ok_iff env input s sound signs = (
  λ (r, h).
      let (named, typed, unlimited, found, correct, free, _, _) = login-admitted env input s r h in
      (r.user, named, typed, unlimited, found, correct, free),
  λ (u, named, typed, unlimited, found, correct, free).
      let (r, h) = admit-ok env u (trim_space input.identifier) input s sound signs in
      (
        r,
        ground (
          arith,
          h,
          check_user-admits env (trim_space input.identifier) input u s correct free,
          sound Op.find_user,
          eq_iff (trim_space input.identifier) "",
          eq_iff input.password "",
        ),
      ),
)

-- A login that fails with an error of the service, not one of a failed call, leaves the users, the
-- sessions and the announcements as they are.
pub login-refused :
    (env : Env) (input : LoginInput) (s : Store) (e : Error)
    → (login env input s).0 ≡ err e
    → e ≢ internal
    → ((login env input s).1.users ≡ s.users)
      × ((login env input s).1.sessions ≡ s.sessions)
      × ((login env input s).1.announced ≡ s.announced)
unfolding login
login-refused env input s e h other =
    let name = trim_space input.identifier in
    ground (arith, check_user-kept env name input (find_by_identifier env.fold name s) s e)

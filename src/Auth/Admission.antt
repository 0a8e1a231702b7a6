-- ===== src/Auth/Admission.antt =====
-- Who may log in (Login of internal/services/auth_service.go), and what a login leaves.
use authentication_service.Prelude.{
  String, true, false, none, some, ◌==◌, nat_eq, eq_iff, ◌≡◌, ◌≢◌, ap, arith, Option-cases, inl,
  inr,
}
use authentication_service.Prelude.Text.{trim_space}
use authentication_service.Auth.Store.{User, Store, Env, Audit}
use authentication_service.Auth.Exec.{ok, err, invalid_credentials, Result-cases}
use authentication_service.Auth.Sessions.{find_by_identifier, create_session}
use authentication_service.Auth.Tokens.{
  TokenPair, mint, issue_session, evict_others, session_of, device_limit, nil_if_empty,
}
use authentication_service.Auth.Login.{
  LoginInput, LoginResult, login, limited, refuse, check_user, admit, audited,
}

-- The store between the creation of the session and the audit of the login.
abbrev pub issued : Env → User → String → Store → Store
issued env u device s =
    let single = nat_eq (device_limit u) 1 in
    (evict_others env u single (create_session (session_of env u single (nil_if_empty device)) s)).1

issue_session-left :
    (env : Env) (u : User) (device : String) (s : Store) (pair : TokenPair)
    → (issue_session env u device s).0 ≡ ok pair
    → (issue_session env u device s).1 ≡ issued env u device s
unfolding issue_session mint evict_others
issue_session-left env u device s pair h = ground arith

audited-left :
    (env : Env) (s : Store) (entry : Audit)
    → ((audited env entry s).0 ≡ ok tt)
      × ((audited env entry s).1.sessions ≡ s.sessions)
      × ((audited env entry s).1.announced ≡ s.announced)
unfolding audited
audited-left env s entry = ground arith

admit-left :
    (env : Env) (u : User) (identifier : String) (input : LoginInput) (s : Store) (r : LoginResult)
    → (admit env u identifier input s).0 ≡ ok r
    → (r.user ≡ u)
      × ((admit env u identifier input s).1.sessions ≡ (issued env u input.device_id s).sessions)
      × ((admit env u identifier input s).1.announced ≡ (issued env u input.device_id s).announced)
unfolding admit audited
admit-left env u identifier input s r h =
    elim (Result-cases (issue_session env u input.device_id s).0) [
      | inl (pair, issues) ↦
          let left = issue_session-left env u input.device_id s pair issues in
          (
            ground arith,
            ground (arith, ap (λ (t : Store). t.sessions) left),
            ground (arith, ap (λ (t : Store). t.announced) left),
          )
      | inr (e, fails) ↦ absurd (ground arith)
    ]

check_user-left :
    (env : Env) (identifier : String) (input : LoginInput) (u : User) (s : Store) (r : LoginResult)
    → (check_user env identifier input (some u) s).0 ≡ ok r
    → (env.compare_password u.password_hash input.password ≡ true)
      × (u.is_suspended ≡ false)
      × (check_user env identifier input (some u) s ≡ admit env u identifier input s)
unfolding check_user refuse
check_user-left env identifier input u s r h = ground arith

login-checked :
    (env : Env) (input : LoginInput) (s : Store) (r : LoginResult)
    → (login env input s).0 ≡ ok r
    → ((trim_space input.identifier == "") ≡ false)
      × ((input.password == "") ≡ false)
      × (limited env ≡ false)
      × (login env input s
          ≡ check_user env
              (trim_space input.identifier)
              input
              (find_by_identifier env.fold (trim_space input.identifier) s)
              s)
unfolding login
login-checked env input s r h = ground arith

refused-unknown :
    (env : Env) (identifier : String) (input : LoginInput) (s : Store)
    → (check_user env identifier input none s).0 ≡ err invalid_credentials
unfolding check_user refuse audited
refused-unknown env identifier input s = ground arith

-- What a login that succeeds has checked, and the sessions and announcements that it leaves.
pub login-admitted :
    (env : Env) (input : LoginInput) (s : Store) (r : LoginResult)
    → (login env input s).0 ≡ ok r
    → (trim_space input.identifier ≢ "")
      × (input.password ≢ "")
      × (limited env ≡ false)
      × (find_by_identifier env.fold (trim_space input.identifier) s ≡ some r.user)
      × (env.compare_password r.user.password_hash input.password ≡ true)
      × (r.user.is_suspended ≡ false)
      × ((login env input s).1.sessions ≡ (issued env r.user input.device_id s).sessions)
      × ((login env input s).1.announced ≡ (issued env r.user input.device_id s).announced)
login-admitted env input s r h =
    let name = trim_space input.identifier in
    let (named, typed, unlimited, same) = login-checked env input s r h in
    elim (Option-cases (find_by_identifier env.fold name s)) [
      | inl missing ↦
          absurd (cc (ap (λ (t : _ × _). t.0) same, h, refused-unknown env name input s, missing))
      | inr (u, found) ↦
          let same = rw found at same in
          let (correct, free, admits) = check_user-left env name input u s r (rw (← same) h) in
          let (is_u, sessions, announced) =
            admit-left env u name input s r (rw (← admits, ← same) h) in
          (
            λ e. cc (named, (eq_iff name "").1 e),
            λ e. cc (typed, (eq_iff input.password "").1 e),
            unlimited,
            cc,
            rw is_u correct,
            rw is_u free,
            rw (same, admits, is_u) sessions,
            rw (same, admits, is_u) announced,
          )
    ]

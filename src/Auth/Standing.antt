-- ===== src/Auth/Standing.antt =====
-- Whom a credential that ValidateToken accepts stands for (internal/services/auth_service.go).
use authentication_service.Prelude.{
  String, true, false, none, some, ◌==◌, nat_eq, ◌≡◌, sym, arith, Option-cases, Bool-cases, inl,
  inr,
}
use mathlib.Core.Path.{subst}
use authentication_service.Prelude.Text.{trim_space, count_of}
use authentication_service.Authctx.Principal.{Principal}
use authentication_service.Auth.Store.{Uuid, Store, Env, Company, ApiKey, is_usable}
use authentication_service.Auth.Exec.{ok, Result-cases}
use authentication_service.Auth.Sessions.{find_user, find_key, find_company}
use authentication_service.Auth.Validate.{
  Holder, person, machine, Validated, validate_token, validate_jwt, validate_api_key,
  validate_machine_key, validate_user_key, validate_key_holder, confirm_session, verified,
}

-- A holder that may act: a user of the table who is not suspended, or a usable key of the table that
-- names no person, for a company of the table that is not suspended.
abbrev pub InGoodStanding : Env → Store → Holder → Type 0
InGoodStanding env s (person u) = (id : Uuid) × (find_user id s ≡ some u) × (u.is_suspended ≡ false)
InGoodStanding env s (machine k c) =
    (key : String) × (id : Uuid) × (find_key (env.hash_token key) s ≡ some k)
    × (is_usable env.now k ≡ true)
    × (k.user_id ≡ none)
    × (k.company_id ≡ some id)
    × (find_company id s ≡ some c)
    × (c.is_suspended ≡ false)

confirm_session-left :
    (env : Env) (p : Principal) (s : Store)
    → (confirm_session env p s).0 ≡ ok tt
    → confirm_session env p s ≡ (ok tt, s)
unfolding confirm_session
confirm_session-left env p s h = ground arith

validate_jwt-person :
    (env : Env) (token : String) (s : Store) (v : Validated)
    → (validate_jwt env token s).0 ≡ ok v
    → InGoodStanding env s v.holder
unfolding validate_jwt
validate_jwt-person env token s v h = elim (Option-cases (verified env token)) [
  | inl bad ↦ absurd (ground arith)
  | inr (p, good) ↦ elim (Result-cases (confirm_session env p s).0) [
    | inr (e, refuses) ↦ absurd (ground arith)
    | inl (t, confirms) ↦
        let left = confirm_session-left env p s confirms in
        elim (Option-cases (env.parse_uuid p.user_id)) [
          | inl bad ↦ absurd (ground (arith, left))
          | inr (id, parsed) ↦ elim (Option-cases (find_user id s)) [
            | inl bad ↦ absurd (ground (arith, left))
            | inr (u, found) ↦
                let facts : (u.is_suspended ≡ false) × (v.holder ≡ person u) =
                  ground (arith, left) in
                subst (InGoodStanding env s) (sym facts.1) (id, found, facts.0)
          ]
        ]
  ]
]

validate_user_key-person :
    (env : Env) (id : Uuid) (s : Store) (v : Validated)
    → (validate_user_key env id s).0 ≡ ok v
    → InGoodStanding env s v.holder
unfolding validate_user_key
validate_user_key-person env id s v h = elim (Option-cases (find_user id s)) [
  | inl bad ↦ absurd (ground arith)
  | inr (u, found) ↦
      let facts : (u.is_suspended ≡ false) × (v.holder ≡ person u) = ground arith in
      subst (InGoodStanding env s) (sym facts.1) (id, found, facts.0)
]

validate_machine_key-machine :
    (env : Env) (k : ApiKey) (s : Store) (v : Validated)
    → (validate_machine_key env k s).0 ≡ ok v
    → (id : Uuid) × (c : Company) × (k.company_id ≡ some id)
      × (find_company id s ≡ some c)
      × (c.is_suspended ≡ false)
      × (v.holder ≡ machine k c)
unfolding validate_machine_key
validate_machine_key-machine env k s v h = elim (Option-cases k.company_id) [
  | inl bad ↦ absurd (ground arith)
  | inr (id, has) ↦ elim (Option-cases (find_company id s)) [
    | inl bad ↦ absurd (ground arith)
    | inr (c, found) ↦
        let facts : (c.is_suspended ≡ false) × (v.holder ≡ machine k c) = ground arith in
        (id, c, has, found, facts.0, facts.1)
  ]
]

validate_api_key-left :
    (env : Env) (key : String) (s : Store) (v : Validated)
    → (validate_api_key env key s).0 ≡ ok v
    → (k : ApiKey) × (find_key (env.hash_token key) s ≡ some k)
      × (is_usable env.now k ≡ true)
      × (validate_api_key env key s ≡ validate_key_holder env k k.user_id s)
unfolding validate_api_key
validate_api_key-left env key s v h = elim (Option-cases (find_key (env.hash_token key) s)) [
  | inl bad ↦ absurd (ground arith)
  | inr (k, found) ↦ (k, found, ground arith, ground arith)
]

validate_api_key-standing :
    (env : Env) (key : String) (s : Store) (v : Validated)
    → (validate_api_key env key s).0 ≡ ok v
    → InGoodStanding env s v.holder
unfolding validate_key_holder
validate_api_key-standing env key s v h =
    let (k, found, usable, same) = validate_api_key-left env key s v h in
    let held : (validate_key_holder env k k.user_id s).0 ≡ ok v = rw (← same) h in
    elim (Option-cases k.user_id) [
      | inl nobody ↦
          let (id, c, has, company, free, is_machine) =
            validate_machine_key-machine env k s v (rw nobody at held) in
          subst (InGoodStanding env s) (sym is_machine)
            (key, id, found, usable, nobody, has, company, free)
      | inr (id, somebody) ↦ validate_user_key-person env id s v (rw somebody at held)
    ]

-- A credential that is accepted, token or API key, stands for a holder that may act: a user of the
-- table who is not suspended, or a usable key that names no person, for a company that is not
-- suspended.
pub validate_token-standing :
    (env : Env) (raw : String) (s : Store) (v : Validated)
    → (validate_token env raw s).0 ≡ ok v
    → InGoodStanding env s v.holder
unfolding validate_token
validate_token-standing env raw s v h = elim (Bool-cases (trim_space raw == "")) [
  | inl bare ↦ absurd (ground arith)
  | inr given ↦ elim (Bool-cases (nat_eq (count_of "." (trim_space raw)) 2)) [
    | inl jwt ↦ validate_jwt-person env (trim_space raw) s v (ground arith)
    | inr key ↦ validate_api_key-standing env (trim_space raw) s v (ground arith)
  ]
]

-- ===== src/Auth/Passwords.antt =====
-- What a change of the password leaves (ChangePassword of internal/services/auth_service.go).
use authentication_service.Prelude.{
  String, true, false, List, [], ◌∷◌, ◌++◌, some, nat_eq, ◌≡◌, ap, arith, Option-cases, Bool-cases,
  inl, inr,
}
use authentication_service.Revocation.Held.{user}
use authentication_service.Auth.Store.{Uuid, User, Store, Env, revoke_all}
use authentication_service.Auth.Exec.{ok}
use authentication_service.Auth.Sessions.{find_user, first, revoke_all as revokes, revoke_where}
use authentication_service.Auth.Login.{audited}
use authentication_service.Auth.Account.{
  change_password, replace_password, set_password, update_password, is_strong,
}

replace_password-left :
    (env : Env) (id : Uuid) (new : String) (s : Store)
    → (replace_password env id new s).0 ≡ ok tt
    → env.fails revoke_all ≡ false
    → (is_strong new ≡ true)
      × ((replace_password env id new s).1.users ≡ set_password id (env.hash_password new) s.users)
      × ((replace_password env id new s).1.sessions
          ≡ revoke_where env.now (λ x. nat_eq x.user_id id) s.sessions)
      × ((replace_password env id new s).1.announced
          ≡ (s.announced ++ record { kind = user; id = env.uuid_text id; at = env.now } ∷ []))
unfolding replace_password update_password revokes audited
replace_password-left env id new s h works = ground arith

change_password-left :
    (env : Env) (id : Uuid) (old new : String) (s : Store)
    → (change_password env id old new s).0 ≡ ok tt
    → (u : User) × (find_user id s ≡ some u)
      × (env.compare_password u.password_hash old ≡ true)
      × (change_password env id old new s ≡ replace_password env id new s)
unfolding change_password audited
change_password-left env id old new s h = elim (Option-cases (find_user id s)) [
  | inl missing ↦ absurd (ground arith)
  | inr (u, found) ↦ (u, found, ground arith, ground arith)
]

first-set_password :
    (id : Uuid) (hash : String) (us : List User) (u : User)
    → first (λ v. nat_eq v.id id) us ≡ some u
    → first (λ v. nat_eq v.id id) (set_password id hash us)
      ≡ some (record u { password_hash = hash })
unfolding first set_password
first-set_password id hash [] u h = absurd (cc)
first-set_password id hash (v ∷ us) u h = elim (Bool-cases (nat_eq v.id id)) [
  | inl here ↦
      let same : v ≡ u = ground arith in
      rw (here, here) (ap (λ (w : User). some (record w { password_hash = hash })) same)
  | inr other ↦ ground (arith, first-set_password id hash us u)
]

-- A change of the password that succeeds, with a revocation that does not fail, was given the old
-- password and a strong new one, and the user's password is the new one afterwards, all else of the
-- user unchanged.
pub change_password-find_user :
    (env : Env) (id : Uuid) (old new : String) (s : Store)
    → (change_password env id old new s).0 ≡ ok tt
    → env.fails revoke_all ≡ false
    → (u : User) × (find_user id s ≡ some u)
      × (env.compare_password u.password_hash old ≡ true)
      × (is_strong new ≡ true)
      × (find_user id (change_password env id old new s).1
          ≡ some (record u { password_hash = env.hash_password new }))
unfolding find_user
change_password-find_user env id old new s h works =
    let (u, found, correct, same) = change_password-left env id old new s h in
    let (strong, users, _, _) = replace_password-left env id new s (rw (← same) h) works in
    (
      u,
      found,
      correct,
      strong,
      rw (same, users) (first-set_password id (env.hash_password new) s.users u found),
    )

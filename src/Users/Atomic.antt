-- ===== src/Users/Atomic.antt =====
-- A method that fails has changed nothing, unless what failed is the end of the sessions.
use authentication_service.Prelude.{
  String, Bool, true, List, Option, none, some, any, ◌≡◌, ◌≢◌, refl, ◌∙◌, arith, Bool-cases,
  Option-cases, inl, inr,
}
use authentication_service.Auth.Store.{Uuid, User}
use authentication_service.Users.Directory.{
  Directory, Refusal, not_revoked, Outside, Call, Answer, done, failed, Act, go_on, ◌>>=◌, ◌>>◌,
  demand, expect, get_user, end_sessions_of, noted, held_features,
}
use authentication_service.Access.Build.{ExtraRow}
use authentication_service.Users.Permissions.{
  or_refuse, refused_key, assert_grantable, assert_held, grant_access, disable_access, update_user,
  closing,
}

-- The method leaves the directory as it was wherever it fails in another way.
abbrev pub Atomic {ℓ} : {A : Type ℓ} → Act A → Type ℓ
Atomic m = (d : Directory) (e : Refusal) → (m d).0 ≡ failed e → e ≢ not_revoked → (m d).1 ≡ d

abbrev pub Reads {ℓ} : {A : Type ℓ} → Act A → Type 0
Reads m = (d : Directory) → (m d).1 ≡ d

-- All that can fail in it is the end of the sessions.
abbrev OnlyEnds {ℓ} : {A : Type ℓ} → Act A → Type ℓ
OnlyEnds m = (d : Directory) (e : Refusal) → (m d).0 ≡ failed e → e ≡ not_revoked

module _ {ℓ κ} {A : Type ℓ} {B : Type κ} where
  go_on-read :
      (r : Answer A) (f : A → Act B) (d d' : Directory) (e : Refusal)
      → d' ≡ d
      → ((a : A) → Atomic (f a))
      → (go_on r f d').0 ≡ failed e
      → e ≢ not_revoked
      → (go_on r f d').1 ≡ d
  go_on-read (done a) f d d' e same rest h other = rest a d' e h other ∙ same
  go_on-read (failed g) f d d' e same rest h other = same

  pub Atomic-read :
      (m : Act A) (f : A → Act B) → Reads m → ((a : A) → Atomic (f a)) → Atomic (m >>= f)
  Atomic-read m f reads rest d e = go_on-read (m d).0 f d (m d).1 e (reads d) rest

  go_on-write :
      (r : Answer A) (f : A → Act B) (d d' : Directory) (e : Refusal)
      → ((g : Refusal) → r ≡ failed g → g ≢ not_revoked → d' ≡ d)
      → ((a : A) → OnlyEnds (f a))
      → (go_on r f d').0 ≡ failed e
      → e ≢ not_revoked
      → (go_on r f d').1 ≡ d
  go_on-write (done a) f d d' e first rest h other = absurd (other (rest a d' e h))
  go_on-write (failed g) f d d' e first rest h other = first g refl (ground (arith, h, other))

  Atomic-write :
      (m : Act A) (f : A → Act B) → Atomic m → ((a : A) → OnlyEnds (f a)) → Atomic (m >>= f)
  Atomic-write m f first rest d e = go_on-write (m d).0 f d (m d).1 e (first d) rest

module _ {ℓ κ} {A : Type ℓ} {B : Type κ} where
  Reads-go_on :
      (r : Answer A) (f : A → Act B) (d d' : Directory)
      → d' ≡ d
      → ((a : A) → Reads (f a))
      → (go_on r f d').1 ≡ d
  Reads-go_on (done a) f d d' same rest = rest a d' ∙ same
  Reads-go_on (failed g) f d d' same rest = same

  Reads-read : (m : Act A) (f : A → Act B) → Reads m → ((a : A) → Reads (f a)) → Reads (m >>= f)
  Reads-read m f reads rest d = Reads-go_on (m d).0 f d (m d).1 (reads d) rest

pub demand-Reads : (c : Directory → Bool) (e : Refusal) → Reads (λ d. demand (c d) e d)
demand-Reads c e d = elim (Bool-cases (c d)) [
  | inl holds ↦ rw holds refl
  | inr fails ↦ rw fails refl
]

pub expect-Reads {ℓ} :
    {A : Type ℓ} (e : Refusal) (x : Directory → Option A) → Reads (λ d. expect e (x d) d)
expect-Reads e x d = elim (Option-cases (x d)) [
  | inl missing ↦ rw missing refl
  | inr (a, found) ↦ rw found refl
]

or_refuse-Reads : (r : Option Refusal) → Reads (or_refuse r)
or_refuse-Reads none d = refl
or_refuse-Reads (some e) d = refl

module _ (o : Outside) where
  pub get_user-Reads : (call : Call) (id : Uuid) → Reads (get_user o call id)
  unfolding get_user
  get_user-Reads call id d = ground arith

  held_features-Reads :
      (company : Uuid) (product : String) → Reads (held_features o company product)
  unfolding held_features
  held_features-Reads company product d = ground arith

  pub assert_grantable-Reads :
      (company : Uuid) (product : String) (keys : List String)
      → Reads (assert_grantable o company product keys)
  unfolding assert_grantable
  assert_grantable-Reads company product keys =
      Reads-read (held_features o company product) _ (held_features-Reads company product)
        (λ held. or_refuse-Reads (refused_key o.catalogs held product keys))

  pub grant_access-Atomic : (row : ExtraRow) → Atomic (grant_access o row)
  unfolding grant_access
  grant_access-Atomic row d e h other = ground (arith, h)

  pub disable_access-Atomic : (id : Uuid) (product : String) → Atomic (disable_access o id product)
  unfolding disable_access
  disable_access-Atomic id product d e h other = ground (arith, h)

  pub update_user-Atomic : (id : Uuid) (f : User → User) → Atomic (update_user o id f)
  unfolding update_user
  update_user-Atomic id f d e h other = ground (arith, h)

  closing-OnlyEnds : (target actor : Uuid) → OnlyEnds (closing o target actor)
  unfolding closing end_sessions_of noted
  closing-OnlyEnds target actor d e h = ground (arith, h)

  pub assert_held-Reads :
      (company : Option Uuid) (product : String) (keys : List String)
      → Reads (assert_held o company product keys)
  unfolding assert_held
  assert_held-Reads none product keys = λ d. refl
  assert_held-Reads (some company) product keys =
      Reads-read (held_features o company product) _ (held_features-Reads company product) (λ held.
        Reads-read (demand (any (λ f. true) held) _) _ (demand-Reads (λ d. any (λ f. true) held) _)
          (λ u. assert_grantable-Reads company product keys))

  -- A write that fails has written nothing, and what follows ends the sessions.
  pub written-Atomic :
      (target actor : Uuid) (w : Act (Unit {0})) → Atomic w → Atomic (w >> closing o target actor)
  written-Atomic target actor w h = Atomic-write w _ h (λ u. closing-OnlyEnds target actor)

-- ===== src/Auth/Exec.antt =====
-- Service methods: they read and change the store, and return or fail. What was written before an
-- error stays written, so the store comes back beside the error too.
use authentication_service.Prelude.{Bool, true, false, Option, none, some, ◌≡◌, ◌⊎◌, inl, inr, refl}
use authentication_service.Auth.Store.{Store}

-- The errors of the service, with one for what is only wrapped and passed on.
pub data Error : Type 0 where
  invalid_credentials account_suspended account_deleted rate_limited : Error
  session_was_revoked token_invalid weak_password internal : Error

pub data Result {ℓ} (A : Type ℓ) : Type ℓ where
  ok : A → Result A
  err : Error → Result A

pub Result-cases {ℓ} :
    {A : Type ℓ} (r : Result A) → ((a : A) × (r ≡ ok a)) ⊎ ((e : Error) × (r ≡ err e))
Result-cases (ok a) = inl (a, refl)
Result-cases (err e) = inr (e, refl)

abbrev pub Exec {ℓ} : Type ℓ → Type ℓ
Exec A = Store → Result A × Store

module _ {ℓ κ} {A : Type ℓ} {B : Type κ} where
  abbrev pub continue : Result A → (A → Exec B) → Exec B
  continue (ok a) f s = f a s
  continue (err e) f s = (err e, s)

  infixl 5 ◌>>=◌
  abbrev pub ◌>>=◌ : Exec A → (A → Exec B) → Exec B
  ◌>>=◌ m f s = continue (m s).0 f (m s).1

infixl 5 ◌>>◌
abbrev pub ◌>>◌ {ℓ} : {B : Type ℓ} → Exec (Unit {0}) → Exec B → Exec B
m >> k = m >>= λ _. k

abbrev pub pure {ℓ} : {A : Type ℓ} → A → Exec A
pure a s = (ok a, s)

abbrev pub raise {ℓ} : {A : Type ℓ} → Error → Exec A
raise e s = (err e, s)

abbrev pub gets {ℓ} : {A : Type ℓ} → (Store → A) → Exec A
gets f s = (ok (f s), s)

abbrev pub modify : (Store → Store) → Exec (Unit {0})
modify f s = (ok tt, f s)

-- A check that fails with the given error.
abbrev pub require : Bool → Error → Exec (Unit {0})
require true e = pure tt
require false e = raise e

-- A value that must be there.
abbrev pub or_raise {ℓ} : {A : Type ℓ} → Error → Option A → Exec A
or_raise e none = raise e
or_raise e (some a) = pure a

-- A step whose failure is logged and goes no further.
abbrev pub or_warn : Bool → (Store → Store) → Exec (Unit {0})
or_warn true f = pure tt
or_warn false f = modify f

-- ===== src/Prelude/Attempt.antt =====
-- Results of calls that write all or nothing: what they yield, or why they fail.
use mathlib.Core.Path.{◌≡◌, refl}
use native.Mathlib.Omega.{arith}
use mathlib.Core.Bool.{Bool, true, false}
use mathlib.Core.Logic.{◌≢◌, ◌⊎◌, inl, inr}
use mathlib.Core.Option.{Option, none, some}

pub data Attempt {ℓ} (E : Type 0) (A : Type ℓ) : Type ℓ where
  yields : A → Attempt E A
  fails : E → Attempt E A

module _ {ℓ κ} {E : Type 0} {A : Type ℓ} {B : Type κ} where
  infixl 5 ◌>>=◌
  abbrev pub ◌>>=◌ : Attempt E A → (A → Attempt E B) → Attempt E B
  ◌>>=◌ (yields a) f = f a
  ◌>>=◌ (fails e) f = fails e

  -- A chain that yields has yielded at its first step.
  pub after_yields :
      (m : Attempt E A) (k : A → Attempt E B) (b : B)
      → (m >>= k) ≡ yields b
      → (a : A) × (m ≡ yields a) × (k a ≡ yields b)
  after_yields (yields a) k b h = (a, refl, h)
  after_yields (fails e) k b h = absurd (cc)

infixl 5 ◌>>◌
abbrev pub ◌>>◌ {ℓ} : {E : Type 0} {B : Type ℓ} → Attempt E (Unit {0}) → Attempt E B → Attempt E B
m >> k = m >>= λ _. k

-- A condition that ends the call.
abbrev pub fail_if : {E : Type 0} → Bool → E → Attempt E (Unit {0})
fail_if true e = fails e
fail_if false e = yields tt

-- A value that must be there.
abbrev pub or_fail {ℓ} : {E : Type 0} {A : Type ℓ} → E → Option A → Attempt E A
or_fail e none = fails e
or_fail e (some a) = yields a

pub after_fail_if {ℓ} :
    {E : Type 0} {B : Type ℓ} (c : Bool) (e : E) (k : Unit {0} → Attempt E B) (b : B)
    → (fail_if c e >>= k) ≡ yields b
    → (c ≡ false) × (k tt ≡ yields b)
after_fail_if true e k b h = absurd (cc)
after_fail_if false e k b h = (refl, h)

pub after_or_fail {ℓ κ} :
    {E : Type 0} {A : Type ℓ} {B : Type κ} (e : E) (x : Option A) (k : A → Attempt E B) (b : B)
    → (or_fail e x >>= k) ≡ yields b
    → (a : A) × (x ≡ some a) × (k a ≡ yields b)
after_or_fail e none k b h = absurd (cc)
after_or_fail e (some a) k b h = (a, refl, h)

pub Attempt-cases {ℓ} :
    {E : Type 0} {A : Type ℓ} (m : Attempt E A)
    → ((a : A) × (m ≡ yields a)) ⊎ ((e : E) × (m ≡ fails e))
Attempt-cases (yields a) = inl (a, refl)
Attempt-cases (fails e) = inr (e, refl)

-- The step that a chain goes on with.
pub fail_if-passes {ℓ} :
    {E : Type 0} {B : Type ℓ} (c : Bool) (e : E) (k : Unit {0} → Attempt E B)
    → c ≡ false
    → (fail_if c e >>= k) ≡ k tt
fail_if-passes true e k h = absurd (cc)
fail_if-passes false e k h = refl

pub yields-passes {ℓ κ} :
    {E : Type 0} {A : Type ℓ} {B : Type κ} (m : Attempt E A) (k : A → Attempt E B) (a : A)
    → m ≡ yields a
    → (m >>= k) ≡ k a
yields-passes (yields b) k a h = ground (arith, h)
yields-passes (fails e) k a h = absurd (cc)

-- An error that no step of a chain fails with is not the chain's.
pub never-chain {ℓ κ} :
    {E : Type 0} {A : Type ℓ} {B : Type κ} (e : E) (m : Attempt E A) (k : A → Attempt E B)
    → m ≢ fails e
    → ((a : A) → m ≡ yields a → k a ≢ fails e)
    → (m >>= k) ≢ fails e
never-chain e (yields a) k first later h = later a refl h
never-chain {A = A} e (fails x) k first later h = first cc

pub never-fail_if {ℓ} :
    {E : Type 0} {B : Type ℓ} (e other : E) (c : Bool) (k : Unit {0} → Attempt E B)
    → other ≢ e
    → k tt ≢ fails e
    → (fail_if c other >>= k) ≢ fails e
never-fail_if e other true k apart later h = apart cc
never-fail_if e other false k apart later h = later h

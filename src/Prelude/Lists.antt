-- ===== src/Prelude/Lists.antt =====
-- Lists measured by native numbers, membership of texts, and predicates over lists.
use mathlib.Core.Path.{subst}
use Prim.Native.Nat.{ℕ, suc, ◌+◌}
use Prim.Native.String.{String}
use mathlib.Core.Path.{◌≡◌, refl, ap}
use mathlib.Core.Bool.{Bool, true, false, ◌&&◌, ◌||◌}
use mathlib.Core.Logic.{◌↔◌, ◌⊎◌, inl, inr}
use mathlib.Core.List.{List, [], ◌∷◌, ◌++◌}
use native.Mathlib.Omega.{arith}
use text.Mathlib.Text.{◌==◌}
use text.Mathlib.TextEquality.{eq_iff}
use authentication_service.Prelude.Tests.{if◌then◌else◌, Bool-cases}

module _ {ℓ} {A : Type ℓ} where
  abbrev pub length : List A → ℕ
  length [] = 0
  length (x ∷ xs) = suc (length xs)

  abbrev pub all : (A → Bool) → List A → Bool
  all p [] = true
  all p (x ∷ xs) = p x && all p xs

  abbrev pub any : (A → Bool) → List A → Bool
  any p [] = false
  any p (x ∷ xs) = p x || any p xs

  -- The elements that pass a test, in their order.
  abbrev pub keep : (A → Bool) → List A → List A
  keep p [] = []
  keep p (x ∷ xs) = let rest = keep p xs in if p x then x ∷ rest else rest

  -- The first elements, and the elements from the last to the first.
  abbrev pub take : ℕ → List A → List A
  take ℕ.zero xs = []
  take (ℕ.suc n) [] = []
  take (ℕ.suc n) (x ∷ xs) = x ∷ take n xs

  abbrev pub backwards : List A → List A
  backwards [] = []
  backwards (x ∷ xs) = backwards xs ++ x ∷ []

  pub any-append : (p : A → Bool) (xs ys : List A) → any p (xs ++ ys) ≡ (any p xs || any p ys)
  any-append p [] ys = refl
  any-append p (x ∷ xs) ys = ground (arith, any-append p xs ys)

  pub length-append : (xs ys : List A) → length (xs ++ ys) ≡ length xs + length ys
  length-append [] ys = omega arith
  length-append (x ∷ xs) ys = omega (arith, length-append xs ys)

module _ {ℓ κ} {A : Type ℓ} (P : A → Type κ) where
  abbrev pub All : List A → Type κ
  All [] = Unit
  All (x ∷ xs) = P x × All xs

  pub All-append : (xs ys : List A) → All (xs ++ ys) ↔ (All xs × All ys)
  All-append [] ys = (λ h. (tt, h), λ h. h.1)
  All-append (x ∷ xs) ys = (
    λ h. let (before, after) = (All-append xs ys).0 h.1 in ((h.0, before), after),
    λ (both, after). (both.0, (All-append xs ys).1 (both.1, after)),
  )

-- Two lists of one length, related element by element.
abbrev pub Pairs : {A B : Type 0} → (A → B → Type 0) → List A → List B → Type 0
Pairs R [] [] = Unit
Pairs R [] (_ ∷ _) = ⊥
Pairs R (_ ∷ _) [] = ⊥
Pairs R (x ∷ xs) (y ∷ ys) = R x y × Pairs R xs ys

module _ {A : Type 0} where
  -- Membership that keeps the position.
  abbrev pub Elem : A → List A → Type 0
  Elem x [] = ⊥
  Elem x (y ∷ ys) = (y ≡ x) ⊎ Elem x ys

  pub Elem-append_left : (x : A) (xs ys : List A) → Elem x xs → Elem x (xs ++ ys)
  Elem-append_left x [] ys m = absurd m
  Elem-append_left x (y ∷ xs) ys (inl here) = inl here
  Elem-append_left x (y ∷ xs) ys (inr later) = inr (Elem-append_left x xs ys later)

  pub Elem-append_right : (x : A) (xs ys : List A) → Elem x ys → Elem x (xs ++ ys)
  Elem-append_right x [] ys m = m
  Elem-append_right x (y ∷ xs) ys m = inr (Elem-append_right x xs ys m)

  pub Elem-append : (x : A) (xs ys : List A) → Elem x (xs ++ ys) ↔ (Elem x xs ⊎ Elem x ys)
  Elem-append x [] ys = (λ m. inr m, λ m. elim m [ inl h ↦ absurd h | inr h ↦ h ])
  Elem-append x (y ∷ xs) ys = ground (arith, Elem-append x xs ys)

  -- A test that an element passes is passed by some.
  pub any-Elem : (p : A → Bool) (x : A) (xs : List A) → Elem x xs → p x ≡ true → any p xs ≡ true
  any-Elem p x [] m h = absurd m
  any-Elem p x (y ∷ xs) (inl here) h = rw (here, any) (rw h refl)
  any-Elem p x (y ∷ xs) (inr later) h = ground (arith, any-Elem p x xs later h)

  pub Elem-keep :
      (p : A → Bool) (x : A) (xs : List A) → Elem x (keep p xs) ↔ (Elem x xs × (p x ≡ true))
  Elem-keep p x [] = ground arith
  Elem-keep p x (y ∷ ys) = elim (Bool-cases (p y)) [
    | inl passes ↦
        rw (passes, keep)
          (
            λ m. elim m [
              | inl here ↦ (inl here, rw (← here) passes)
              | inr later ↦ let (there, px) = (Elem-keep p x ys).0 later in (inr there, px)
            ],
            λ (m, px). elim m [
              | inl here ↦ inl here
              | inr later ↦ inr ((Elem-keep p x ys).1 (later, px))
            ],
          )
    | inr fails ↦
        rw (fails, keep)
          (
            λ m. let (there, px) = (Elem-keep p x ys).0 m in (inr there, px),
            λ (m, px). elim m [
              | inl here ↦ absurd (cc (ap p here))
              | inr later ↦ (Elem-keep p x ys).1 (later, px)
            ],
          )
  ]

-- slices.Contains over texts.
unfoldable pub contains : List String → String → Bool
contains [] v = false
contains (x ∷ xs) v = x == v || contains xs v

pub contains_iff : (xs : List String) (v : String) → (contains xs v ≡ true) ↔ Elem v xs
unfolding contains
contains_iff [] v = ground arith
contains_iff (x ∷ xs) v = ground (arith, eq_iff x v, contains_iff xs v)

pub contains-append :
    (xs ys : List String) (v : String) → contains (xs ++ ys) v ≡ (contains xs v || contains ys v)
unfolding contains
contains-append [] ys v = refl
contains-append (x ∷ xs) ys v = ground (arith, contains-append xs ys v)

pub contains-keep :
    (p : String → Bool) (xs : List String) (v : String)
    → contains (keep p xs) v ≡ (contains xs v && p v)
unfolding contains
contains-keep p [] v = refl
contains-keep p (x ∷ xs) v = ground (arith, contains-keep p xs v, eq_iff x v, ap p {x = x} {y = v})

pub All-Elem {ℓ} : {A : Type 0} (P : A → Type ℓ) (x : A) (xs : List A) → All P xs → Elem x xs → P x
All-Elem P x [] h among = absurd among
All-Elem P x (y ∷ ys) h (inl here) = subst P here h.0
All-Elem P x (y ∷ ys) h (inr there) = All-Elem P x ys h.1 there

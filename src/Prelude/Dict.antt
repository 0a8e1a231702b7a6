-- ===== src/Prelude/Dict.antt =====
-- Go's `map[string]V` as an association list. The iteration order of a map is the order of the
-- list.
use Prim.Native.String.{String}
use mathlib.Core.Path.{◌≡◌, refl, subst}
use mathlib.Core.Bool.{Bool}
use mathlib.Core.Option.{Option, none, some}
use mathlib.Core.List.{List, [], ◌∷◌}
use native.Mathlib.Omega.{arith}
use text.Mathlib.Text.{◌==◌}
use text.Mathlib.TextEquality.{eq_iff}
use authentication_service.Prelude.Tests.{if◌then◌else◌, Bool-cases}
use authentication_service.Prelude.Lists.{All}
use mathlib.Core.Logic.{inl, inr}

abbrev pub Dict {ℓ} : Type ℓ → Type ℓ
Dict V = List (String × V)

module _ {ℓ} {V : Type ℓ} where
  -- m[k]
  unfoldable pub lookup : String → Dict V → Option V
  lookup k [] = none
  lookup k ((j, v) ∷ m) = if j == k then some v else lookup k m

  -- delete(m, k)
  unfoldable pub remove : String → Dict V → Dict V
  remove k [] = []
  remove k ((j, v) ∷ m) = let rest = remove k m in if j == k then rest else (j, v) ∷ rest

  -- m[k] = v
  unfoldable pub insert : String → V → Dict V → Dict V
  unfolding remove
  insert k v m = (k, v) ∷ remove k m

  -- for k, v := range m { if drop(v) { delete(m, k) } }
  unfoldable pub delete_if : (V → Bool) → Dict V → Dict V
  unfolding remove
  delete_if drop [] = []
  delete_if drop ((j, v) ∷ m) =
      let rest = remove j (delete_if drop m) in if drop v then rest else (j, v) ∷ rest

  abbrev pub unless : (V → Bool) → Option V → Option V
  unless drop none = none
  unless drop (some v) = if drop v then none else some v

  pub lookup-remove :
      (k j : String) (m : Dict V) → lookup j (remove k m) ≡ (if k == j then none else lookup j m)
  unfolding lookup remove
  lookup-remove k j [] = ground arith
  lookup-remove k j ((i, v) ∷ m) =
      ground (arith, lookup-remove k j m, eq_iff i k, eq_iff i j, eq_iff k j)

  pub lookup-insert :
      (k j : String) (v : V) (m : Dict V)
      → lookup j (insert k v m) ≡ (if k == j then some v else lookup j m)
  unfolding lookup insert
  lookup-insert k j v m = ground (arith, lookup-remove k j m)

  pub lookup-delete_if :
      (drop : V → Bool) (k : String) (m : Dict V)
      → lookup k (delete_if drop m) ≡ unless drop (lookup k m)
  unfolding lookup delete_if
  lookup-delete_if drop k [] = refl
  lookup-delete_if drop k ((j, v) ∷ m) =
      ground (arith, lookup-remove j k (delete_if drop m), lookup-delete_if drop k m)

-- What holds of every value holds of a value that is read.
pub All-lookup {ℓ κ} :
    {V : Type ℓ} (P : V → Type κ) (k : String) (m : Dict V) {v : V}
    → All (λ e. P e.1) m
    → lookup k m ≡ some v
    → P v
unfolding lookup
All-lookup P k [] h e = absurd (cc)
All-lookup P k ((j, w) ∷ m) {v} h e = elim (Bool-cases (j == k)) [
  | inl here ↦ let same : w ≡ v = ground arith in subst P same h.0
  | inr other ↦ All-lookup P k m h.1 (rw other at e)
]

pub ruleset dict_laws = (lookup-remove, lookup-insert, lookup-delete_if)

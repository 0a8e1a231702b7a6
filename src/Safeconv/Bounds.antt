-- ===== src/Safeconv/Bounds.antt =====
-- The conversions saturate: they stay in range and keep every value that fits.
use authentication_service.Prelude.{ℕ, ◌+◌, ◌≤◌, ◌≡◌, ◌⊎◌, inl, inr, refl, arith}
use native.Mathlib.Decide.{dec_lt}
use authentication_service.Prelude.Int.{ℤ, pos, negsuc, ◌≤ℤ◌, ◌<ℤ◌}
use authentication_service.Safeconv.Clamp.{
  max_int32, int32, int32_from64, non_negative_int32, digit,
}

-- What a clamp to `lo` and `hi` is: the nearer bound of a value outside, and the value itself inside.
abbrev pub Clamps : ℤ → ℤ → ℤ → ℤ → Type 0
Clamps lo hi v r = (v <ℤ lo) × (r ≡ lo) ⊎ (hi <ℤ v) × (r ≡ hi) ⊎ (lo ≤ℤ v) × (v ≤ℤ hi) × (r ≡ v)

int32-Clamps : (v : ℤ) → Clamps (negsuc max_int32) (pos max_int32) v (int32 v)
unfolding int32
int32-Clamps (pos n) = ground arith
int32-Clamps (negsuc n) = ground arith

-- Int32From64 clamps to the 32-bit range; NonNegativeInt32 clamps to its values that are not
-- negative. No conversion wraps.
pub safeconv-Clamps :
    (v : ℤ)
    → Clamps (negsuc max_int32) (pos max_int32) v (int32_from64 v)
      × Clamps (pos 0) (pos max_int32) v (non_negative_int32 v)
unfolding int32_from64 non_negative_int32
safeconv-Clamps (pos n) = ground arith
safeconv-Clamps (negsuc n) = ground arith

-- Digit is an ASCII digit for every input: that of 0 below the range, that of 9 above it, and the
-- value's own inside.
pub digit_bounds :
    (v : ℤ)
    → (v <ℤ pos 0) × (digit v ≡ b'0')
      ⊎ (pos 9 <ℤ v) × (digit v ≡ b'9')
      ⊎ ((n : ℕ) × (v ≡ pos n) × (n ≤ 9) × (digit v ≡ b'0' + n))
unfolding digit
digit_bounds (pos n) = elim (dec_lt 9 n) [
  | yes above ↦ inr (inl (ground arith))
  | no inside ↦ inr (inr (n, refl, omega arith, ground arith))
]
digit_bounds (negsuc n) = inl (tt, ground arith)

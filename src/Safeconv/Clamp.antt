-- ===== src/Safeconv/Clamp.antt =====
-- The conversions of internal/platform/safeconv/safeconv.go. `wrap32` is Go's conversion `int32(v)`,
-- which keeps the low 32 bits.
use authentication_service.Prelude.{ℕ, ◌+◌, ◌-◌, ◌%◌, ltb, if◌then◌else◌}
use authentication_service.Prelude.Int.{ℤ, pos, negsuc, ltb_ℤ}

abbrev pub max_int32 : ℕ
max_int32 = 2147483647

-- math.MinInt32 is `negsuc max_int32`.
abbrev signed32 : ℕ → ℤ
signed32 n = if ltb n 2147483648 then pos n else negsuc (4294967295 - n)

-- int32(v)
unfoldable pub wrap32 : ℤ → ℤ
wrap32 (pos n) = signed32 (n % 4294967296)
wrap32 (negsuc n) = signed32 (4294967295 - n % 4294967296)

-- Int32, and Int32From64: the same code over the same 64-bit values.
unfoldable pub int32 : ℤ → ℤ
unfolding wrap32
int32 v =
    if ltb_ℤ (pos max_int32) v
    then pos max_int32
    else if ltb_ℤ v (negsuc max_int32)
    then negsuc max_int32
    else wrap32 v

-- Int32From64
unfoldable pub int32_from64 : ℤ → ℤ
unfolding wrap32
int32_from64 v =
    if ltb_ℤ (pos max_int32) v
    then pos max_int32
    else if ltb_ℤ v (negsuc max_int32)
    then negsuc max_int32
    else wrap32 v

-- NonNegativeInt32
unfoldable pub non_negative_int32 : ℤ → ℤ
unfolding int32
non_negative_int32 v = if ltb_ℤ v (pos 0) then pos 0 else int32 v

abbrev raised : ℤ → ℤ
raised v = if ltb_ℤ v (pos 0) then pos 0 else v

abbrev lowered : ℤ → ℤ
lowered v = if ltb_ℤ (pos 9) v then pos 9 else v

-- byte(v), of a value that is not negative.
abbrev low_byte : ℤ → ℕ
low_byte (pos n) = n % 256
low_byte (negsuc n) = 255 - n % 256

abbrev plus : ℕ → ℤ → ℤ
plus k (pos n) = pos (k + n)
plus k (negsuc n) = if ltb n k then pos (k - n - 1) else negsuc (n - k)

-- Digit
unfoldable pub digit : ℤ → ℕ
digit v = low_byte (plus b'0' (lowered (raised v)))

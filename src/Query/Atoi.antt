-- ===== src/Query/Atoi.antt =====
-- `strconv.Atoi` of Go's standard library at 64 bits, which `Parse` calls: the value and whether
-- there is no error. A syntax error gives 0; a value out of range gives the nearest bound.
use Prim.Native.Char.{code}
use authentication_service.Prelude.{
  ℕ, ◌+◌, ◌-◌, ◌*◌, String, Bool, true, false, ◌&&◌, not, ltb, leb, if◌then◌else◌, none, some, ◌==◌,
}
use authentication_service.Prelude.Int.{ℤ, pos, negsuc, neg}
use authentication_service.Prelude.Text.{cut_prefix}

abbrev pub max_int64 : ℕ
max_int64 = 9223372036854775807

abbrev max_uint64 : ℕ
max_uint64 = 18446744073709551615

pub data Unsigned : Type 0 where
  value : ℕ → Unsigned
  syntax_error range_error : Unsigned

-- The loop of ParseUint at base 10: it stops at the first character that is no digit, and at the
-- first digit with which the value leaves 64 bits.
parse_digits : ℕ → String → Unsigned
parse_digits n String.[] = value n
parse_digits n (String.◌∷◌ c s) =
    let next = n * 10 + (code c - b'0') in
    let rest = parse_digits next s in
    if not (leb b'0' (code c) && leb (code c) b'9')
    then syntax_error
    else if ltb max_uint64 next
    then range_error
    else rest

parse_uint : String → Unsigned
unfolding parse_digits
parse_uint s = if s == "" then syntax_error else parse_digits 0 s

-- The end of ParseInt.
signed : Bool → Unsigned → ℤ × Bool
signed negative syntax_error = (pos 0, false)
signed true range_error = (negsuc max_int64, false)
signed false range_error = (pos max_int64, false)
signed true (value n) = if ltb (max_int64 + 1) n then (negsuc max_int64, false) else (neg n, true)
signed false (value n) = if ltb max_int64 n then (pos max_int64, false) else (pos n, true)

unfoldable pub atoi : String → ℤ × Bool
unfolding parse_uint signed cut_prefix
atoi s = elim (cut_prefix "-" s) [
  | some rest ↦ signed true (parse_uint rest)
  | none ↦ elim (cut_prefix "+" s) [
    | some rest ↦ signed false (parse_uint rest)
    | none ↦ signed false (parse_uint s)
  ]
]

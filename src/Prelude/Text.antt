-- ===== src/Prelude/Text.antt =====
-- The operations of Go's `strings` that the source uses, over the characters of a text.
use Prim.Native.Char.{Char, code}
use Prim.Native.String.{String, ◌++◌}
use mathlib.Core.Path.{◌≡◌, ap, ◌∙◌}
use mathlib.Core.Bool.{Bool, ◌&&◌, ◌||◌}
use mathlib.Core.Option
use mathlib.Core.Option.{Option, none, some}
use mathlib.Core.List.{List, [], ◌∷◌}
use native.Mathlib.Omega.{arith}
use text.Mathlib.Text.{◌==◌}
use text.Mathlib.TextEquality.{eq_iff}
use text.Mathlib.TextLemmas.{nil-append, cons-append}
use Prim.Native.Nat.{ℕ}
use authentication_service.Prelude.Tests.{if◌then◌else◌, nat_eq, leb, Bool-cases, Option-cases}
use mathlib.Core.Logic.{inl, inr}

-- strings.CutPrefix
unfoldable pub cut_prefix : String → String → Option String
cut_prefix String.[] s = some s
cut_prefix (String.◌∷◌ c p) String.[] = none
cut_prefix (String.◌∷◌ c p) (String.◌∷◌ d s) =
    let rest = cut_prefix p s in if nat_eq (code c) (code d) then rest else none

abbrev pub one : Char → String
one c = String.◌∷◌ c String.[]

abbrev onto : Char → String × String → String × String
onto c (a, b) = (String.◌∷◌ c a, b)

-- strings.Cut, at a separator of one character: what stands before its first occurrence, and what
-- stands after it.
unfoldable pub cut : String → String → Option (String × String)
cut sep String.[] = none
cut sep (String.◌∷◌ c s) =
    let later = Option.map (onto c) (cut sep s) in if one c == sep then some ("", s) else later

-- strings.Count and strings.Split, at a separator of one character.
unfoldable pub split_from : String → String → String → List String
split_from sep cur String.[] = cur ∷ []
split_from sep cur (String.◌∷◌ c s) =
    let closed = cur ∷ split_from sep "" s in
    let longer = split_from sep (cur ++ one c) s in if one c == sep then closed else longer

unfoldable pub split : String → String → List String
unfolding split_from
split sep s = split_from sep "" s

unfoldable pub count_of : String → String → ℕ
count_of sep String.[] = 0
count_of sep (String.◌∷◌ c s) = let n = count_of sep s in if one c == sep then ℕ.suc n else n

-- unicode.IsSpace
unfoldable pub is_space : ℕ → Bool
is_space c =
    leb 9 c && leb c 13
    || (nat_eq c 0x20
        || (nat_eq c 0x85
            || (nat_eq c 0xa0
                || (nat_eq c 0x1680
                    || (leb 0x2000 c && leb c 0x200a
                        || (leb 0x2028 c && leb c 0x2029
                            || (nat_eq c 0x202f || (nat_eq c 0x205f || nat_eq c 0x3000))))))))

unfoldable pub trim_left : String → String
unfolding is_space
trim_left String.[] = ""
trim_left (String.◌∷◌ c s) =
    let rest = trim_left s in if is_space (code c) then rest else String.◌∷◌ c s

unfoldable pub trim_right : String → String
unfolding is_space
trim_right String.[] = ""
trim_right (String.◌∷◌ c s) =
    let rest = trim_right s in if is_space (code c) && rest == "" then "" else String.◌∷◌ c rest

-- strings.TrimSpace
unfoldable pub trim_space : String → String
unfolding trim_left trim_right
trim_space s = trim_right (trim_left s)

pub one-append : (c : Char) (s : String) → one c ++ s ≡ String.◌∷◌ c s
one-append c s = cons-append c "" s ∙ ap (String.◌∷◌ c) (nil-append s)

join_here :
    (sep a b s : String) (c : Char)
    → a ≡ ""
    → b ≡ s
    → one c ≡ sep
    → a ++ (sep ++ b) ≡ String.◌∷◌ c s
join_here sep a b s c p q r = rw (p, q, ← r) (nil-append (one c ++ s) ∙ one-append c s)

-- What Cut takes apart, the separator joins.
pub cut-join : (sep s a b : String) → cut sep s ≡ some (a, b) → a ++ (sep ++ b) ≡ s
unfolding cut
cut-join sep String.[] a b h = absurd (cc)
cut-join sep (String.◌∷◌ c s) a b h = elim (Bool-cases (one c == sep)) [
  | inl here ↦ join_here sep a b s c (ground arith) (ground arith) ((eq_iff (one c) sep).0 here)
  | inr other ↦ elim (Option-cases (cut sep s)) [
    | inl missing ↦ absurd (ground arith)
    | inr ((a', b'), found) ↦
        let first : a ≡ String.◌∷◌ c a' = ground arith in
        let second : b ≡ b' = ground arith in
        rw (first, second)
          (cons-append c a' (sep ++ b') ∙ ap (String.◌∷◌ c) (cut-join sep s a' b' found))
  ]
]

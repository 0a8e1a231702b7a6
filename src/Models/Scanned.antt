-- ===== src/Models/Scanned.antt =====
-- What Value writes, parsePGArray reads back.
use Prim.Native.Char.{Char}
use Prim.Native.String.{◌++◌}
use mathlib.Core.Option
use authentication_service.Prelude.{
  String, true, false, ◌||◌, List, [], ◌∷◌, some, ◌==◌, eq_iff, ◌≡◌, refl, ap, ◌∙◌, arith,
  Bool-cases, inl, inr,
}
use authentication_service.Prelude.Text.{one, one-append}
use authentication_service.Models.Arrays.{
  is_quote, is_backslash, escape_array_elem, elements, value, without_last, body_of, read_elements,
  elements_of, parse_pg_array,
}
use text.Mathlib.TextLemmas.{
  nil-append, cons-append, append-nil, append_assoc, append-ne-nil_of_right_ne-nil, cons≢nil,
}

longer_lem : (cur s : String) (c : Char) → (cur ++ one c) ++ s ≡ cur ++ String.◌∷◌ c s
longer_lem cur s c = append_assoc cur (one c) s ∙ ap (λ t. cur ++ t) (one-append c s)

-- An element in its quotes is read as it was.
read_elements-escape_array_elem :
    (s cur t : String)
    → read_elements false true cur (escape_array_elem s ++ t)
      ≡ read_elements false true (cur ++ s) t
unfolding read_elements escape_array_elem
read_elements-escape_array_elem String.[] cur t = rw (nil-append, append-nil) refl
read_elements-escape_array_elem (String.◌∷◌ c s) cur t =
    elim (Bool-cases (is_quote c || is_backslash c)) [
      | inl special ↦
          rw (special, cons-append, cons-append)
            (read_elements-escape_array_elem s (cur ++ one c) t
              ∙ ap (λ u. read_elements false true u t) (longer_lem cur s c))
      | inr plain ↦
          let back : is_backslash c ≡ false = ground (arith, plain) in
          let quote : is_quote c ≡ false = ground (arith, plain) in
          rw (plain, cons-append, read_elements)
            (rw (back, quote)
              (ground (
                arith,
                read_elements-escape_array_elem s (cur ++ one c) t
                    ∙ ap (λ u. read_elements false true u t) (longer_lem cur s c),
              )))
    ]

read_elements-elements :
    (x : String) (xs : List String) → read_elements false false x (elements false xs) ≡ x ∷ xs
unfolding read_elements elements
read_elements-elements x [] = refl
read_elements-elements x (y ∷ ys) =
    ap (λ l. x ∷ l)
      (read_elements-escape_array_elem y "" (String.◌∷◌ "\"" (elements false ys))
        ∙ ap (λ u. read_elements false true u (String.◌∷◌ "\"" (elements false ys))) (nil-append y)
        ∙ read_elements-elements y ys)

without_last-append : (s : String) → without_last (s ++ "}") ≡ some s
unfolding without_last
without_last-append String.[] = ap without_last (nil-append "}")
without_last-append (String.◌∷◌ c s) = elim (Bool-cases ((s ++ "}") == "")) [
  | inl empty ↦ absurd (append-ne-nil_of_right_ne-nil s cons≢nil ((eq_iff (s ++ "}") "").0 empty))
  | inr more ↦
      rw (cons-append, without_last)
        (rw more (ap (Option.map (String.◌∷◌ c)) (without_last-append s)))
]

elements_of-elements : (xs : List String) → elements_of (elements true xs) ≡ xs
unfolding elements read_elements
elements_of-elements [] = refl
elements_of-elements (x ∷ xs) =
    read_elements-escape_array_elem x "" (String.◌∷◌ "\"" (elements false xs))
    ∙ ap (λ u. read_elements false true u (String.◌∷◌ "\"" (elements false xs))) (nil-append x)
    ∙ read_elements-elements x xs

-- What is stored in a column of texts is what is read from it: for every list of texts, also with
-- empty ones and with quotes, backslashes, commas or braces in them, parsing what Value writes gives
-- the list.
pub parse_pg_array-value : (xs : List String) → parse_pg_array (value xs) ≡ some xs
unfolding parse_pg_array value body_of
parse_pg_array-value xs =
    ap (Option.map elements_of) (without_last-append (elements true xs))
    ∙ ap some (elements_of-elements xs)

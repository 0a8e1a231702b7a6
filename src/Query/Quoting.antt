-- ===== src/Query/Quoting.antt =====
-- Quoted identifiers: what quoteIdent writes (internal/repository/query.go), a SQL lexer reads back.
use Prim.Native.Char.{Char}
use Prim.Native.String.{◌++◌}
use authentication_service.Prelude.{
  String, Bool, true, false, Option, none, some, ◌==◌, ◌≡◌, refl, ap, ◌∙◌, if◌then◌else◌,
  Bool-cases, inl, inr,
}
use authentication_service.Prelude.Text.{one-append}
use authentication_service.Query.Sql.{double_quotes, quote_ident}
use mathlib.Core.Option
use text.Mathlib.TextLemmas.{nil-append, cons-append, append_assoc}

abbrev is_quote : Char → Bool
is_quote c = String.◌∷◌ c String.[] == "\""

abbrev onto : Char → String × String → String × String
onto c (a, b) = (String.◌∷◌ c a, b)

-- The rule of SQL for the rest of a quoted identifier: two quotes stand for one, and a quote that no
-- other follows ends it. The flag says that the last character was a quote not yet read. The
-- result is the identifier and what stands after it.
unfoldable pub lex_rest : Bool → String → Option (String × String)
lex_rest false String.[] = none
lex_rest true String.[] = some ("", "")
lex_rest false (String.◌∷◌ c s) =
    let closed = lex_rest true s in
    let longer = Option.map (onto c) (lex_rest false s) in if is_quote c then closed else longer
lex_rest true (String.◌∷◌ c s) =
    let longer = Option.map (onto c) (lex_rest false s) in
    if is_quote c then longer else some ("", String.◌∷◌ c s)

unfoldable pub lex_ident : String → Option (String × String)
unfolding lex_rest
lex_ident String.[] = none
lex_ident (String.◌∷◌ c s) = if is_quote c then lex_rest false s else none

-- The text does not begin with a quote.
abbrev pub IsOutside : String → Type 0
IsOutside String.[] = Unit
IsOutside (String.◌∷◌ c s) = is_quote c ≡ false

lex_rest-end : (rest : String) → IsOutside rest → lex_rest true rest ≡ some ("", rest)
unfolding lex_rest
lex_rest-end String.[] h = refl
lex_rest-end (String.◌∷◌ c s) h = rw h

-- `q` is the quote.
module _ (q : Char) (quotes : is_quote q ≡ true) (rest : String) (outside : IsOutside rest) where
  lex_rest-double_quotes :
      (s : String) → lex_rest false (double_quotes s ++ String.◌∷◌ q rest) ≡ some (s, rest)
  unfolding lex_rest double_quotes
  lex_rest-double_quotes String.[] =
      rw (nil-append, lex_rest) (rw quotes (lex_rest-end rest outside))
  lex_rest-double_quotes (String.◌∷◌ c s) = elim (Bool-cases (is_quote c)) [
    | inl quote ↦ rw quote (
        rw (cons-append, cons-append, lex_rest)
          (rw quote (ap (Option.map (onto c)) (lex_rest-double_quotes s))))
    | inr plain ↦ rw plain (
        rw (cons-append, lex_rest) (rw plain (ap (Option.map (onto c)) (lex_rest-double_quotes s))))
  ]

-- Whatever the identifier, and whatever stands after it that does not begin with a quote, a SQL lexer
-- reads from the quoted identifier exactly the identifier, and goes on with what stands after it.
pub lex_ident-quote_ident :
    (s rest : String) → IsOutside rest → lex_ident (quote_ident s ++ rest) ≡ some (s, rest)
unfolding lex_ident quote_ident
lex_ident-quote_ident s rest h =
    let quoted : ("\"" ++ (double_quotes s ++ "\"")) ++ rest
        ≡ String.◌∷◌ "\"" (double_quotes s ++ String.◌∷◌ "\"" rest) =
      append_assoc "\"" (double_quotes s ++ "\"") rest
      ∙ one-append "\"" ((double_quotes s ++ "\"") ++ rest)
      ∙ ap (String.◌∷◌ "\"") (
          append_assoc (double_quotes s) "\"" rest
          ∙ ap (λ t. double_quotes s ++ t) (one-append "\"" rest)) in
    rw quoted (lex_rest-double_quotes "\"" refl rest h s)

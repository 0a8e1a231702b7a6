-- ===== src/Abbrev/Derive.antt =====
-- FromName and Normalise, and the hook that calls them (internal/models/models.go). `lower` and `upper` stand for strings.ToLower and strings.ToUpper, and
-- `is_word` for unicode.IsLetter or unicode.IsDigit. A text is a list of characters; where Go cuts it
-- inside the bytes of one, what is left is no text, and the result is none.
use Prim.Native.Char.{Char, code}
use Prim.Native.String.{◌++◌}
use mathlib.Core.Option
use authentication_service.Prelude.{
  ℕ, ◌+◌, ◌-◌, String, Bool, true, false, not, ◌&&◌, ◌||◌, List, [], ◌∷◌, keep, Option, none, some,
  ◌==◌, leb, ltb, nat_eq, contains, if◌then◌else◌,
}
use authentication_service.Prelude.Text.{one, is_space, trim_space}

abbrev pub max_length : ℕ
max_length = 3

-- legalForms
abbrev pub legal_forms : List String
legal_forms = "pt" ∷ "cv" ∷ "ud" ∷ "pd" ∷ "tbk" ∷ "persero" ∷ "perseroan" ∷ []

-- The characters that `[^a-zA-Z0-9 ]` leaves.
unfoldable pub is_plain : ℕ → Bool
is_plain c =
    leb 0x30 c && leb c 0x39
    || (leb 0x41 c && leb c 0x5a || (leb 0x61 c && leb c 0x7a || nat_eq c 0x20))

-- `nonAlphanumeric.ReplaceAllString(name, " ")`; the flag says that the run has been replaced.
unfoldable pub clean : Bool → String → String
unfolding is_plain
clean replaced String.[] = ""
clean replaced (String.◌∷◌ c s) =
    let kept = String.◌∷◌ c (clean false s) in
    let run = clean true s in
    if is_plain (code c) then kept else if replaced then run else " " ++ run

abbrev pub add_word : String → List String → List String
add_word word words = if word == "" then words else word ∷ words

-- strings.Fields, with the word that is being read.
unfoldable pub fields_from : String → String → List String
unfolding is_space
fields_from word String.[] = add_word word []
fields_from word (String.◌∷◌ c s) =
    let closed = add_word word (fields_from "" s) in
    let longer = fields_from (word ++ one c) s in if is_space (code c) then closed else longer

unfoldable pub fields : String → List String
unfolding fields_from
fields s = fields_from "" s

-- The bytes of a character in UTF-8, and of a text.
unfoldable pub width : Char → ℕ
width c =
    if ltb (code c) 0x80
    then 1
    else if ltb (code c) 0x800
    then 2
    else if ltb (code c) 0x10000
    then 3
    else 4

unfoldable pub bytes : String → ℕ
unfolding width
bytes String.[] = 0
bytes (String.◌∷◌ c s) = width c + bytes s

-- `s[:n]`
unfoldable pub take_bytes : ℕ → String → Option String
unfolding width
take_bytes n String.[] = some ""
take_bytes n (String.◌∷◌ c s) =
    let rest = Option.map (String.◌∷◌ c) (take_bytes (n - width c) s) in
    if nat_eq n 0 then some "" else if leb (width c) n then rest else none

-- `word[:1]`, of a word that `clean` has left.
abbrev pub initial : String → String
initial String.[] = ""
initial (String.◌∷◌ c s) = one c

unfoldable pub initials : List String → String
initials [] = ""
initials (w ∷ ws) = initial w ++ initials ws

-- keepAlphanumeric
unfoldable pub keep_words : (Char → Bool) → String → String
keep_words is_word String.[] = ""
keep_words is_word (String.◌∷◌ c s) =
    let rest = keep_words is_word s in if is_word c then String.◌∷◌ c rest else rest

module _ (lower upper : String → String) (is_word : Char → Bool) where
  abbrev pub or_co : String → String
  or_co s = if s == "" then "CO" else s

  -- clamp
  unfoldable pub clamp : String → Option String
  unfolding bytes take_bytes keep_words
  clamp s =
      let upped = upper (keep_words is_word s) in
      Option.map or_co
        (if ltb max_length (bytes upped) then take_bytes max_length upped else some upped)

  -- Normalise
  unfoldable pub normalise : String → Option String
  unfolding clamp
  normalise s = clamp s

  -- The code of the words, before it is clamped.
  unfoldable pub code_of : List String → String
  unfolding initials
  code_of [] = ""
  code_of (w ∷ []) = w
  code_of (w ∷ v ∷ ws) = initials (w ∷ v ∷ ws)

  -- The words without the legal forms, or all if there are only those.
  unfoldable pub words_of : List String → List String
  unfolding contains
  words_of ws = elim (keep (λ w. not (contains legal_forms (lower w))) ws) [
    | [] ↦ ws
    | v ∷ vs ↦ v ∷ vs
  ]

  -- FromName
  unfoldable pub from_name : String → Option String
  unfolding clean fields words_of code_of clamp
  from_name name = elim (words_of (fields (clean false name))) [
    | [] ↦ some "CO"
    | w ∷ ws ↦ clamp (code_of (w ∷ ws))
  ]

  -- Company.BeforeCreate: none where the code is no text, which the database refuses.
  unfoldable pub before_create : String → Option String → Option String
  unfolding trim_space from_name normalise
  before_create name none = from_name name
  before_create name (some given) =
      if trim_space given == "" then from_name name else normalise given

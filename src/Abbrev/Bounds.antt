-- ===== src/Abbrev/Bounds.antt =====
-- The codes of companies are short, and are texts.
use Prim.Native.Char.{Char, code}
use Prim.Native.String.{◌++◌}
use mathlib.Core.Option
use authentication_service.Prelude.{
  ℕ, ◌-◌, ◌≤◌, String, Bool, true, false, not, ◌&&◌, List, [], ◌∷◌, all, keep, none, some, ◌==◌,
  eq_iff, ltb, nat_eq, contains, ◌≡◌, refl, ap, arith, Bool-cases, inl, inr,
}
use authentication_service.Prelude.Text.{one}
use authentication_service.Abbrev.Derive.{
  max_length, legal_forms, is_plain, clean, fields_from, fields, width, bytes, take_bytes, initial,
  initials, keep_words, or_co, clamp, normalise, code_of, words_of, from_name,
}
use text.Mathlib.TextLemmas.{nil-append, cons-append}

-- Each character has one byte.
unfoldable pub is_ascii : String → Bool
is_ascii String.[] = true
is_ascii (String.◌∷◌ c s) = ltb (code c) 0x80 && is_ascii s

is_ascii-append : (a b : String) → is_ascii (a ++ b) ≡ (is_ascii a && is_ascii b)
unfolding is_ascii
is_ascii-append String.[] b = ap is_ascii (nil-append b)
is_ascii-append (String.◌∷◌ c a) b =
    rw (cons-append, is_ascii) (ground (arith, is_ascii-append a b))

clean-ascii : (replaced : Bool) (s : String) → is_ascii (clean replaced s) ≡ true
unfolding clean is_plain is_ascii
clean-ascii replaced String.[] = refl
clean-ascii replaced (String.◌∷◌ c s) =
    ground (arith, clean-ascii false s, clean-ascii true s, is_ascii-append " " (clean true s))

fields_from-ascii :
    (word s : String)
    → is_ascii word ≡ true
    → is_ascii s ≡ true
    → all is_ascii (fields_from word s) ≡ true
unfolding fields_from is_ascii
fields_from-ascii word String.[] w h = ground (arith, w)
fields_from-ascii word (String.◌∷◌ c s) w h = ground (
  arith,
  w,
  h,
  fields_from-ascii "" s,
  fields_from-ascii (word ++ one c) s,
  is_ascii-append word (one c),
)

keep-ascii :
    (p : String → Bool) (ws : List String)
    → all is_ascii ws ≡ true
    → all is_ascii (keep p ws) ≡ true
keep-ascii p [] h = refl
keep-ascii p (w ∷ ws) h = ground (arith, h, keep-ascii p ws)

initial-ascii : (w : String) → is_ascii w ≡ true → is_ascii (initial w) ≡ true
unfolding is_ascii
initial-ascii String.[] h = refl
initial-ascii (String.◌∷◌ c s) h = ground (arith, h)

initials-ascii : (ws : List String) → all is_ascii ws ≡ true → is_ascii (initials ws) ≡ true
unfolding initials is_ascii
initials-ascii [] h = refl
initials-ascii (w ∷ ws) h =
    ground (arith, h, initials-ascii ws, initial-ascii w, is_ascii-append (initial w) (initials ws))

keep_words-ascii :
    (p : Char → Bool) (s : String) → is_ascii s ≡ true → is_ascii (keep_words p s) ≡ true
unfolding keep_words is_ascii
keep_words-ascii p String.[] h = refl
keep_words-ascii p (String.◌∷◌ c s) h = ground (arith, h, keep_words-ascii p s)

-- A text of one-byte characters is cut between two of them.
take_bytes-ascii :
    (n : ℕ) (s : String)
    → is_ascii s ≡ true
    → (t : String) × (take_bytes n s ≡ some t) × (bytes t ≤ n) × (is_ascii t ≡ true)
unfolding take_bytes bytes width is_ascii
take_bytes-ascii n String.[] h = ("", refl, omega arith, refl)
take_bytes-ascii n (String.◌∷◌ c s) h = elim (Bool-cases (nat_eq n 0)) [
  | inl out ↦ ("", ground (arith, out), omega arith, refl)
  | inr more ↦
      let (t, cut, short, plain) = take_bytes-ascii (n - 1) s (ground (arith, h)) in
      (
        String.◌∷◌ c t,
        ground (arith, more, h, cut),
        ground (arith, more, h, short),
        ground (arith, h, plain),
      )
]

bytes-positive : (s : String) → (s == "") ≡ false → 1 ≤ bytes s
unfolding bytes width
bytes-positive String.[] h = absurd (ground (arith, h, eq_iff "" ""))
bytes-positive (String.◌∷◌ c s) h = ground arith

module _ (lower upper : String → String) (is_word : Char → Bool) where
  or_co-bounds :
      (s : String)
      → bytes s ≤ 3
      → is_ascii s ≡ true
      → (1 ≤ bytes (or_co lower upper is_word s))
        × (bytes (or_co lower upper is_word s) ≤ 3)
        × (is_ascii (or_co lower upper is_word s) ≡ true)
  unfolding bytes width is_ascii
  or_co-bounds s short plain = elim (Bool-cases (s == "")) [
    | inl empty ↦ rw empty (omega arith, omega arith, refl)
    | inr there ↦ rw there (bytes-positive s there, short, plain)
  ]

  -- The upper case of ASCII is ASCII.
  abbrev pub KeepsAscii : Type 0
  KeepsAscii = (s : String) → is_ascii s ≡ true → is_ascii (upper s) ≡ true

  clamp-bounds :
      (s : String)
      → KeepsAscii
      → is_ascii s ≡ true
      → (t : String) × (clamp lower upper is_word s ≡ some t)
        × (1 ≤ bytes t)
        × (bytes t ≤ 3)
        × (is_ascii t ≡ true)
  unfolding clamp
  clamp-bounds s ascii plain =
      let upped = upper (keep_words is_word s) in
      let upped_plain = ascii (keep_words is_word s) (keep_words-ascii is_word s plain) in
      elim (Bool-cases (ltb max_length (bytes upped))) [
        | inl long ↦
            let (t, cut, short, kept) = take_bytes-ascii max_length upped upped_plain in
            let (some_bytes, few, good) = or_co-bounds t short kept in
            (
              or_co lower upper is_word t,
              rw long (ap (Option.map (or_co lower upper is_word)) cut),
              some_bytes,
              few,
              good,
            )
        | inr short ↦
            let (some_bytes, few, good) = or_co-bounds upped (ground (arith, short)) upped_plain in
            (or_co lower upper is_word upped, rw short refl, some_bytes, few, good)
      ]

  code_of-ascii :
      (ws : List String) → all is_ascii ws ≡ true → is_ascii (code_of lower upper is_word ws) ≡ true
  unfolding code_of is_ascii
  code_of-ascii [] h = refl
  code_of-ascii (w ∷ []) h = ground (arith, h)
  code_of-ascii (w ∷ v ∷ ws) h = initials-ascii (w ∷ v ∷ ws) h

  or_all-ascii :
      (kept ws : List String)
      → all is_ascii kept ≡ true
      → all is_ascii ws ≡ true
      → all is_ascii (elim kept [ [] ↦ ws | v ∷ vs ↦ v ∷ vs ]) ≡ true
  or_all-ascii [] ws k h = h
  or_all-ascii (v ∷ vs) ws k h = k

  code-bounds :
      (ws : List String)
      → KeepsAscii
      → all is_ascii ws ≡ true
      → (t : String) × (elim ws [
        | [] ↦ some "CO"
        | w ∷ vs ↦ clamp lower upper is_word (code_of lower upper is_word (w ∷ vs))
      ]
          ≡ some t)
        × (1 ≤ bytes t)
        × (bytes t ≤ 3)
        × (is_ascii t ≡ true)
  unfolding bytes width is_ascii
  code-bounds [] ascii h = ("CO", refl, omega arith, omega arith, refl)
  code-bounds (w ∷ ws) ascii h =
      clamp-bounds (code_of lower upper is_word (w ∷ ws)) ascii (code_of-ascii (w ∷ ws) h)

  -- Every name of a company has a code, of one to three bytes, each a character of its own: where the
  -- upper case of an ASCII text is ASCII, FromName answers with such a text, whatever the name.
  pub from_name-bytes :
      (name : String)
      → KeepsAscii
      → (t : String) × (from_name lower upper is_word name ≡ some t)
        × (1 ≤ bytes t)
        × (bytes t ≤ 3)
        × (is_ascii t ≡ true)
  unfolding from_name words_of fields is_ascii
  from_name-bytes name ascii =
      let read = fields_from-ascii "" (clean false name) refl (clean-ascii false name) in
      code-bounds (words_of lower upper is_word (fields (clean false name))) ascii (
        or_all-ascii (keep (λ w. not (contains legal_forms (lower w))) (fields (clean false name)))
          (fields (clean false name))
          (keep-ascii (λ w. not (contains legal_forms (lower w))) (fields (clean false name)) read)
          read)

  -- A typed code of two letters that have two bytes each in upper case, which clamp cuts inside the
  -- second one, is left as no text.
  pub normalise-cut :
      (c d : Char)
      → is_word c ≡ true
      → is_word d ≡ true
      → upper (String.◌∷◌ c (one d)) ≡ String.◌∷◌ c (one d)
      → width c ≡ 2
      → width d ≡ 2
      → normalise lower upper is_word (String.◌∷◌ c (one d)) ≡ none
  unfolding normalise clamp keep_words bytes take_bytes
  normalise-cut c d is_c is_d same two two' = rw (is_c, is_d, same, two, two') refl

-- ===== src/Models/Arrays.antt =====
-- StringArray, the codec of a column of texts. The texts are UTF-8.
use Prim.Native.Char.{Char, code}
use Prim.Native.String.{◌++◌}
use mathlib.Core.Option
use authentication_service.Prelude.{
  String, Bool, true, false, not, ◌&&◌, ◌||◌, List, [], ◌∷◌, Option, none, some, ◌==◌, nat_eq,
  if◌then◌else◌,
}
use authentication_service.Prelude.Text.{one}

abbrev pub is_quote : Char → Bool
is_quote c = nat_eq (code c) 0x22

abbrev pub is_backslash : Char → Bool
is_backslash c = nat_eq (code c) 0x5c

abbrev pub is_comma : Char → Bool
is_comma c = nat_eq (code c) 0x2c

-- escapeArrayElem
unfoldable pub escape_array_elem : String → String
escape_array_elem String.[] = ""
escape_array_elem (String.◌∷◌ c s) =
    let rest = escape_array_elem s in
    if is_quote c || is_backslash c then String.◌∷◌ "\\" (String.◌∷◌ c rest) else String.◌∷◌ c rest

-- The elements in their quotes, the first without a comma before it.
unfoldable pub elements : Bool → List String → String
unfolding escape_array_elem
elements first [] = ""
elements first (x ∷ xs) =
    let quoted = String.◌∷◌ "\"" (escape_array_elem x ++ String.◌∷◌ "\"" (elements false xs)) in
    if first then quoted else String.◌∷◌ "," quoted

-- Value
unfoldable pub value : List String → String
unfolding elements
value xs = String.◌∷◌ "{" (elements true xs ++ "}")

-- `s[:len(s)-1]`, where the last character is a closing brace.
unfoldable pub without_last : String → Option String
without_last String.[] = none
without_last (String.◌∷◌ c s) =
    let later = Option.map (String.◌∷◌ c) (without_last s) in
    if s == "" then (if nat_eq (code c) 0x7d then some "" else none) else later

unfoldable pub body_of : String → Option String
unfolding without_last
body_of String.[] = none
body_of (String.◌∷◌ c s) = if nat_eq (code c) 0x7b then without_last s else none

-- The loop of parsePGArray: whether the character is escaped, whether it is in quotes, and the element
-- that is being read.
unfoldable pub read_elements : Bool → Bool → String → String → List String
read_elements escaped in_quote cur String.[] = cur ∷ []
read_elements true in_quote cur (String.◌∷◌ c s) = read_elements false in_quote (cur ++ one c) s
read_elements false in_quote cur (String.◌∷◌ c s) =
    let after_backslash = read_elements true in_quote cur s in
    let after_quote = read_elements false (not in_quote) cur s in
    let after_comma = cur ∷ read_elements false in_quote "" s in
    let longer = read_elements false in_quote (cur ++ one c) s in
    if is_backslash c
    then after_backslash
    else if is_quote c
    then after_quote
    else if is_comma c && not in_quote
    then after_comma
    else longer

abbrev pub elements_of : String → List String
elements_of String.[] = []
elements_of (String.◌∷◌ c s) = read_elements false false "" (String.◌∷◌ c s)

-- parsePGArray, none for a malformed array.
unfoldable pub parse_pg_array : String → Option (List String)
unfolding body_of read_elements
parse_pg_array s = Option.map elements_of (body_of s)

-- ===== src/Drivers/Names.antt =====
-- The username that is derived for a driver. `lower` stands for strings.ToLower.
use Prim.Native.Char.{code}
use Prim.Native.String.{◌++◌}
use authentication_service.Prelude.{
  ℕ, ◌+◌, ◌/◌, ◌%◌, String, Bool, ◌&&◌, ◌||◌, List, [], ◌∷◌, any, Option, none, some, ◌==◌, leb,
  ltb, nat_eq, if◌then◌else◌,
}
use authentication_service.Prelude.Text.{one}
use authentication_service.Abbrev.Derive.{fields}
use authentication_service.Auth.Store.{User}
use authentication_service.Auth.Sessions.{is_citext}
use authentication_service.Users.Registration.{Tenant}

-- The characters that `[^a-z0-9._]` leaves.
abbrev pub is_username_char : ℕ → Bool
is_username_char c =
    leb 0x61 c && leb c 0x7a || (leb 0x30 c && leb c 0x39 || (nat_eq c 0x2e || nat_eq c 0x5f))

-- `usernameChars.ReplaceAllString(s, "")`
unfoldable pub slug : String → String
slug String.[] = ""
slug (String.◌∷◌ c s) =
    let rest = slug s in if is_username_char (code c) then String.◌∷◌ c rest else rest

-- ExistsByUsername, of a CITEXT column.
unfoldable pub is_used : (String → String) → List User → String → Bool
is_used fold users username = any (λ u. is_citext fold u.username username) users

abbrev pub digit : ℕ → String
digit n =
    if nat_eq n 0
    then "0"
    else if nat_eq n 1
    then "1"
    else if nat_eq n 2
    then "2"
    else if nat_eq n 3
    then "3"
    else if nat_eq n 4
    then "4"
    else if nat_eq n 5
    then "5"
    else if nat_eq n 6
    then "6"
    else if nat_eq n 7
    then "7"
    else if nat_eq n 8
    then "8"
    else "9"

-- `%02d`, below 100.
unfoldable pub two_digits : ℕ → String
two_digits n = digit (n / 10) ++ digit (n % 10)

-- The loop, with the number of candidates that are left.
unfoldable pub next_free : (String → String) → List User → String → ℕ → ℕ → Option String
unfolding is_used two_digits
next_free fold users base ℕ.zero n = none
next_free fold users base (ℕ.suc left) n =
    let later = next_free fold users base left (n + 1) in
    if is_used fold users (base ++ two_digits n) then later else some (base ++ two_digits n)

module _ (lower : String → String) where
  abbrev pub slug_of_first : List String → String
  slug_of_first [] = ""
  slug_of_first (w ∷ ws) = slug (lower w)

  -- firstNameSlug
  unfoldable pub first_name_slug : String → String
  unfolding fields slug
  first_name_slug name = slug_of_first (fields name)

  -- `strings.ToLower(w[:1])`, where it is kept: a byte of a longer character is not.
  abbrev pub word_initial : String → String
  word_initial String.[] = ""
  word_initial (String.◌∷◌ c s) =
      if ltb (code c) 0x80 && slug (lower (one c)) == lower (one c) then lower (one c) else ""

  unfoldable pub name_initials : List String → String
  unfolding slug
  name_initials [] = ""
  name_initials (w ∷ ws) = word_initial w ++ name_initials ws

  abbrev pub abbreviation_slug : Option String → String
  abbreviation_slug none = ""
  abbreviation_slug (some a) = slug (lower a)

  -- companyInitials
  unfoldable pub company_initials : Option Tenant → String
  unfolding slug name_initials fields
  company_initials none = ""
  company_initials (some t) =
      if abbreviation_slug t.abbreviation == ""
      then name_initials (fields t.name)
      else abbreviation_slug t.abbreviation

  abbrev pub or_driver : String → String
  or_driver s = if s == "" then "driver" else s

  unfoldable pub base_username : Option Tenant → String → String
  unfolding first_name_slug company_initials
  base_username company name = or_driver (first_name_slug name ++ company_initials company)

  -- deriveUsername: none where every candidate is taken.
  unfoldable pub derive_username :
      (String → String) → List User → Option Tenant → String → Option String
  unfolding base_username is_used next_free
  derive_username fold users company name =
      let base = base_username company name in
      if is_used fold users base then next_free fold users base 99 1 else some base

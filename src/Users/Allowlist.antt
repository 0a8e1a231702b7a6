-- ===== src/Users/Allowlist.antt =====
-- Which columns a request body can reach.
use authentication_service.Prelude.{
  String, Bool, true, false, List, [], ◌∷◌, any, none, some, ◌==◌, eq_iff, ◌≡◌, refl, arith, All,
  Option-cases, inl, inr,
}
use authentication_service.Prelude.Dict.{Dict, lookup, insert, lookup-insert}
use authentication_service.Users.Accounts.{
  project_allowed, profile_updatable, merge_map, merge_maps, admin_updatable,
}

abbrev pub is_column : String → Dict String → Bool
is_column column allowed = any (λ e. e.1 == column) allowed

lookup-is_column :
    (k column : String) (allowed : Dict String)
    → lookup k allowed ≡ some column
    → is_column column allowed ≡ true
unfolding lookup
lookup-is_column k column [] h = absurd (cc)
lookup-is_column k column ((j, c) ∷ allowed) h =
    ground (arith, lookup-is_column k column allowed, eq_iff c column)

project_allowed-other {ℓ} :
    {V : Type ℓ} (input : Dict V) (allowed : Dict String) (column : String)
    → is_column column allowed ≡ false
    → lookup column (project_allowed input allowed) ≡ none
unfolding project_allowed lookup
project_allowed-other [] allowed column other = refl
project_allowed-other ((k, v) ∷ input) allowed column other =
    elim (Option-cases (lookup k allowed)) [
      | inl missing ↦ rw missing (project_allowed-other input allowed column other)
      | inr (c, found) ↦ ground (
        arith,
        found,
        lookup-is_column k c allowed found,
        eq_iff c column,
        lookup-insert c column v (project_allowed input allowed),
        project_allowed-other input allowed column other,
      )
    ]

-- The columns that decide who a person is, where they belong and what they may do.
abbrev pub privileges : List String
privileges =
    "id" ∷ "company_id" ∷ "role_id" ∷ "is_platform_staff" ∷ "is_suspended" ∷ "password_hash"
    ∷ "max_devices" ∷ "fms_user_id" ∷ "deleted_at" ∷ []

-- Those that only an administrator may change.
abbrev pub administrative : List String
administrative =
    "role" ∷ "is_verified" ∷ "is_email_verified" ∷ "is_phone_verified" ∷ "email" ∷ "username" ∷ []

-- The request does not write the column.
abbrev pub Untouched {ℓ} : {V : Type ℓ} → Dict V → String → Type ℓ
Untouched fields column = lookup column fields ≡ none

project_allowed-Untouched {ℓ} :
    {V : Type ℓ} (input : Dict V) (allowed : Dict String) (columns : List String)
    → any (λ c. is_column c allowed) columns ≡ false
    → All (Untouched (project_allowed input allowed)) columns
project_allowed-Untouched input allowed [] h = tt
project_allowed-Untouched input allowed (c ∷ columns) h = (
  project_allowed-other input allowed c (ground arith),
  project_allowed-Untouched input allowed columns (ground arith),
)

-- Whatever the body of a request says, what UpdateProfile and AdminUpdate make of it sets none of the
-- columns of privileges, and what UpdateProfile makes of it none that only an administrator may change.
pub project_allowed-privileges :
    (input : Dict String)
    → All (Untouched (project_allowed input profile_updatable)) privileges
      × All (Untouched (project_allowed input profile_updatable)) administrative
      × All (Untouched (project_allowed input admin_updatable)) privileges
unfolding admin_updatable merge_maps merge_map insert
project_allowed-privileges input = (
  project_allowed-Untouched input profile_updatable privileges refl,
  project_allowed-Untouched input profile_updatable administrative refl,
  project_allowed-Untouched input admin_updatable privileges refl,
)

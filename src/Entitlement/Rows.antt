-- ===== src/Entitlement/Rows.antt =====
-- The rows of company_modules and company_product_settings that the entitlement reads
-- (internal/models/models.go). A date is a number of days.
use authentication_service.Prelude.{ℕ, String, Bool, true, ◌&&◌, Option, none, some, leb, nat_eq}

pub record CompanyModule : Type 0 where
  pub company_id : ℕ
  pub product : String
  pub name : String
  pub enabled : Bool
  pub valid_from : Option ℕ
  pub valid_until : Option ℕ

pub record CompanyProductSettings : Type 0 where
  pub company_id : ℕ
  pub product : String
  pub entitlement_mode : String

-- `valid_from IS NULL OR valid_from <= CURRENT_DATE`
abbrev pub has_started : ℕ → Option ℕ → Bool
has_started today none = true
has_started today (some date) = leb date today

-- `valid_until IS NULL OR valid_until >= CURRENT_DATE`
abbrev pub not_over : ℕ → Option ℕ → Bool
not_over today none = true
not_over today (some date) = leb today date

-- The WHERE clause of the query of entitlementFor.
unfoldable pub is_current : ℕ → ℕ → CompanyModule → Bool
is_current today company row =
    nat_eq row.company_id company
    && (has_started today row.valid_from && not_over today row.valid_until)

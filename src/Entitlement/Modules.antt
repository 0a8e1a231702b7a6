-- ===== src/Entitlement/Modules.antt =====
-- ModeFor and Revoke of ModuleRepository (internal/repository/module_repository.go); the history row
-- that Revoke adds is not read by the entitlement and is left out.
use authentication_service.Prelude.{
  ℕ, String, Bool, true, false, ◌&&◌, List, [], ◌∷◌, ◌++◌, Option, none, some, ◌==◌, nat_eq, any,
  if◌then◌else◌,
}
use authentication_service.Entitlement.Rows.{CompanyModule, CompanyProductSettings}
use authentication_service.Entitlement.Features.{entitlement_revoke}

-- `SELECT entitlement_mode … LIMIT 1`, the empty text for no row.
unfoldable pub raw_mode : ℕ → String → List CompanyProductSettings → String
raw_mode company product [] = ""
raw_mode company product (row ∷ rows) =
    let rest = raw_mode company product rows in
    if nat_eq row.company_id company && row.product == product then row.entitlement_mode else rest

-- ModeFor
unfoldable pub mode_for : ℕ → String → List CompanyProductSettings → String
unfolding raw_mode
mode_for company product settings =
    if raw_mode company product settings == "" then "grant" else raw_mode company product settings

-- `company_id = ? AND product = ? AND module = ?`
unfoldable pub is_row_of : ℕ → String → String → CompanyModule → Bool
is_row_of company product name row =
    nat_eq row.company_id company && (row.product == product && row.name == name)

-- `UPDATE company_modules SET enabled = FALSE`
unfoldable pub disable_rows : ℕ → String → String → List CompanyModule → List CompanyModule
unfolding is_row_of
disable_rows company product name [] = []
disable_rows company product name (row ∷ rows) =
    (if is_row_of company product name row then record row { enabled = false } else row)
    ∷ disable_rows company product name rows

-- The row that is added for a company in the opt-out mode. The source asks for `Enabled: false`; the
-- column is declared `default:true` (internal/models/models.go), so GORM leaves the zero value out of the
-- insertion and the row is stored enabled.
unfoldable pub withdrawn : ℕ → String → String → CompanyModule
withdrawn company product name = record {
  company_id = company;
  product = product;
  name = name;
  enabled = true;
  valid_from = none;
  valid_until = none;
}

-- Revoke: none for ErrNotFound.
unfoldable pub revoke_module :
    ℕ
    → String
    → String
    → List CompanyProductSettings
    → List CompanyModule
    → Option (List CompanyModule)
unfolding raw_mode is_row_of disable_rows withdrawn
revoke_module company product name settings rows =
    if any (is_row_of company product name) rows
    then some (disable_rows company product name rows)
    else if raw_mode company product settings == entitlement_revoke
    then some (rows ++ withdrawn company product name ∷ [])
    else none

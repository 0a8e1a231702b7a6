-- ===== src/Entitlement/Withdrawal.antt =====
-- What the withdrawal of a module does to the entitlement (Revoke of
-- internal/repository/module_repository.go, read by entitlementFor).
use authentication_service.Prelude.{
  ℕ, String, ◌==◌, true, false, List, [], ◌∷◌, ◌++◌, none, some, eq_iff, nat_eq_iff, any,
  if◌then◌else◌, ◌≡◌, refl, arith, All, Elem, Bool-cases, inl, inr,
}
use authentication_service.Prelude.Dict.{lookup}
use authentication_service.Authctx.Features.Tables.{Feature}
use authentication_service.Entitlement.Rows.{CompanyModule, CompanyProductSettings, is_current}
use authentication_service.Entitlement.Features.{or_no_names, entitlement_for}
use authentication_service.Entitlement.Statements.{stated, mode_of, or_else}
use authentication_service.Entitlement.Purchases.{IsOnSale, entitlement_for-Holds}
use authentication_service.Entitlement.Modules.{
  raw_mode, mode_for, is_row_of, disable_rows, revoke_module, withdrawn,
}

module _ (today company : ℕ) (product name : String) where
  -- The rows of the module have begun and are not over.
  abbrev pub AllCurrent : List CompanyModule → Type 0
  AllCurrent =
      All (λ row. is_row_of company product name row ≡ true → is_current today company row ≡ true)

  -- The rows of the module are over, or have not begun.
  abbrev pub NoneCurrent : List CompanyModule → Type 0
  NoneCurrent =
      All (λ row. is_row_of company product name row ≡ true → is_current today company row ≡ false)

  stated-disable_rows :
      (rows : List CompanyModule)
      → AllCurrent rows
      → stated today company product name (disable_rows company product name rows)
        ≡ (if any (is_row_of company product name) rows then some false else none)
  unfolding stated disable_rows is_current is_row_of
  stated-disable_rows [] h = refl
  stated-disable_rows (row ∷ rows) h = ground (arith, stated-disable_rows rows h.1, h.0)

  stated-over :
      (rows : List CompanyModule)
      → NoneCurrent rows
      → stated today company product name (disable_rows company product name rows) ≡ none
  unfolding stated disable_rows is_current is_row_of
  stated-over [] h = refl
  stated-over (row ∷ rows) h = ground (arith, stated-over rows h.1, h.0)

  pub stated-append :
      (rows : List CompanyModule) (row : CompanyModule)
      → stated today company product name (rows ++ row ∷ [])
        ≡ or_else
            (stated today company product name (row ∷ []))
            (stated today company product name rows)
  unfolding stated
  stated-append [] row = ground arith
  stated-append (r ∷ rows) row = ground (arith, stated-append rows row)

stated-withdrawn :
    (today company : ℕ) (product name : String)
    → stated today company product name (withdrawn company product name ∷ []) ≡ some true
unfolding stated is_current withdrawn
stated-withdrawn today company product name =
    ground (arith, nat_eq_iff company company, eq_iff product product, eq_iff name name)

stated-revoke_module :
    (today company : ℕ) (product name : String) (settings : List CompanyProductSettings)
    (rows after : List CompanyModule)
    → revoke_module company product name settings rows ≡ some after
    → any (is_row_of company product name) rows ≡ true
    → AllCurrent today company product name rows
    → stated today company product name after ≡ some false
unfolding revoke_module
stated-revoke_module today company product name settings rows after h found current =
    let is_after : disable_rows company product name rows ≡ after = ground arith in
    rw (← is_after) (ground (arith, stated-disable_rows today company product name rows current))

-- A withdrawal of a module that has a row, and whose rows are in force today, ends the company's
-- entitlement to it, whatever the company's mode.
pub revoke_module-entitlement_for :
    (sellable : String → List Feature) (today company : ℕ) (product name : String)
    (settings : List CompanyProductSettings) (rows after : List CompanyModule)
    → revoke_module company product name settings rows ≡ some after
    → any (is_row_of company product name) rows ≡ true
    → AllCurrent today company product name rows
    → ¬ Elem name
        (or_no_names (lookup product (entitlement_for sellable today company after settings)))
revoke_module-entitlement_for sellable today company product name settings rows after h found
      current held =
    ground (
      arith,
      (entitlement_for-Holds sellable today company after settings product name).0 held,
      stated-revoke_module today company product name settings rows after h found current,
    )

raw_mode-revoke :
    (company : ℕ) (product : String) (settings : List CompanyProductSettings)
    → mode_for company product settings ≡ "revoke"
    → raw_mode company product settings ≡ "revoke"
unfolding mode_for
raw_mode-revoke company product settings h =
    elim (Bool-cases (raw_mode company product settings == "")) [
      | inl missing ↦ absurd (cc (rw missing at h))
      | inr there ↦ rw there at h
    ]

-- The withdrawal of a module that is on sale and has no row succeeds for a company in the opt-out mode,
-- as ModeFor and the entitlement both read it, and leaves the company its entitlement: the row that it
-- adds is stored enabled.
pub revoke_module-unwritten :
    (sellable : String → List Feature) (today company : ℕ) (product name : String)
    (settings : List CompanyProductSettings) (rows : List CompanyModule)
    → mode_for company product settings ≡ "revoke"
    → mode_of company product settings ≡ some "revoke"
    → IsOnSale (sellable product) name
    → any (is_row_of company product name) rows ≡ false
    → (after : List CompanyModule) × (revoke_module company product name settings rows ≡ some after)
      × Elem name
          (or_no_names (lookup product (entitlement_for sellable today company after settings)))
unfolding revoke_module
revoke_module-unwritten sellable today company product name settings rows asked mode sale missing =
    let added = withdrawn company product name in
    let on : stated today company product name (rows ++ added ∷ []) ≡ some true = ground (
      arith,
      stated-append today company product name rows added,
      stated-withdrawn today company product name,
    ) in
    (
      rows ++ added ∷ [],
      ground (
        arith,
        missing,
        raw_mode-revoke company product settings asked,
        eq_iff (raw_mode company product settings) "revoke",
      ),
      (entitlement_for-Holds sellable today company (rows ++ added ∷ []) settings product name).1
          (inl (mode, sale, λ h. cc (on, h))),
    )

-- The withdrawal of a module whose rows are all over or have not begun succeeds, and leaves a company
-- in the opt-out mode its entitlement: the rows that it disables are not read.
pub revoke_module-over :
    (sellable : String → List Feature) (today company : ℕ) (product name : String)
    (settings : List CompanyProductSettings) (rows : List CompanyModule)
    → mode_of company product settings ≡ some "revoke"
    → IsOnSale (sellable product) name
    → any (is_row_of company product name) rows ≡ true
    → NoneCurrent today company product name rows
    → (after : List CompanyModule) × (revoke_module company product name settings rows ≡ some after)
      × Elem name
          (or_no_names (lookup product (entitlement_for sellable today company after settings)))
unfolding revoke_module
revoke_module-over sellable today company product name settings rows mode sale found over =
    let after = disable_rows company product name rows in
    let silent = stated-over today company product name rows over in
    (
      after,
      ground arith,
      (entitlement_for-Holds sellable today company after settings product name).1
          (inl (mode, sale, λ h. cc (silent, h))),
    )

-- ===== src/Models/Periods.antt =====
-- CompanyModule.IsActive, beside the clause of the queries that reads the same dates. A date is a
-- number of days, and is read as its midnight in UTC.
use authentication_service.Prelude.{
  ℕ, ◌+◌, ◌-◌, ◌*◌, ◌/◌, Bool, true, false, not, ◌&&◌, Option, none, some, ltb, if◌then◌else◌, ◌≡◌,
  refl, arith,
}
use authentication_service.Revocation.Held.{Time}
use authentication_service.Entitlement.Rows.{CompanyModule, has_started, not_over, is_current}

-- Twenty-four hours, in nanoseconds.
abbrev pub day : ℕ
day = 86400000000000

-- `ValidFrom != nil && at.Before(*ValidFrom)`
abbrev pub is_before : Time → Option ℕ → Bool
is_before at none = false
is_before at (some date) = ltb at (date * day)

-- `ValidUntil != nil && at.After(ValidUntil.Add(24*time.Hour - time.Nanosecond))`
abbrev pub is_after : Time → Option ℕ → Bool
is_after at none = false
is_after at (some date) = ltb (date * day + (day - 1)) at

-- IsActive
unfoldable pub is_active : Time → CompanyModule → Bool
is_active at m =
    if not m.enabled
    then false
    else if is_before at m.valid_from
    then false
    else if is_after at m.valid_until
    then false
    else true

is_before-has_started : (at : Time) (d : Option ℕ) → not (is_before at d) ≡ has_started (at / day) d
is_before-has_started at none = refl
is_before-has_started at (some date) = ground arith

is_after-not_over : (at : Time) (d : Option ℕ) → not (is_after at d) ≡ not_over (at / day) d
is_after-not_over at none = refl
is_after-not_over at (some date) = ground arith

-- At every moment, IsActive says of a row that is enabled what the queries of the entitlement say on
-- the day of that moment in UTC, from the first moment of the first day to the last one of the last;
-- and of a row that is not enabled, false.
pub is_active-is_current :
    (at : Time) (m : CompanyModule)
    → is_active at m ≡ (m.enabled && is_current (at / day) m.company_id m)
unfolding is_active is_current
is_active-is_current at m =
    ground (arith, is_before-has_started at m.valid_from, is_after-not_over at m.valid_until)

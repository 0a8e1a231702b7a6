-- ===== src/Entitlement/Tests.antt =====
-- Concrete purchases.
use authentication_service.Prelude.{
  ◌≡◌, ◌↔◌, refl, List, [], ◌∷◌, String, none, some, true, false, inl, Elem,
}
use authentication_service.Prelude.Dict.{lookup}
use authentication_service.Authctx.Features.Tables.{Feature}
use authentication_service.Authctx.Principal.{Principal, no_principal}
use authentication_service.Entitlement.Service.{GrantInput, Sales, Market, grant, revoke}
use authentication_service.Entitlement.Rows.{CompanyModule, CompanyProductSettings, is_current}
use authentication_service.Entitlement.Features.{entitlement_for, or_no_names}
use authentication_service.Entitlement.Statements.{mode_of}
use authentication_service.Entitlement.Modules.{revoke_module, mode_for, is_row_of}
use authentication_service.Entitlement.Purchases.{Holds, entitlement_for-Holds}
use authentication_service.Entitlement.Withdrawal.{revoke_module-over, revoke_module-unwritten}

abbrev sold_in : String → List Feature
sold_in product =
    record { name = "reports"; owner = "fms"; description = ""; parent = ""; roadmap = false } ∷ []

abbrev trial : CompanyModule
trial = record {
  company_id = 1;
  product = "fms";
  name = "reports";
  enabled = true;
  valid_from = none;
  valid_until = some 30;
}

abbrev opted_out : List CompanyProductSettings
opted_out = record { company_id = 1; product = "fms"; entitlement_mode = "revoke" } ∷ []

entitlement_for-Holds_example :
    Elem "reports"
      (or_no_names (lookup "fms" (entitlement_for sold_in 20 1 (trial ∷ []) opted_out)))
    ↔ Holds sold_in 20 1 (trial ∷ []) opted_out "fms" "reports"
entitlement_for-Holds_example =
    entitlement_for-Holds sold_in 20 1 (trial ∷ []) opted_out "fms" "reports"

revoke_module-over_example :
    (after : List CompanyModule) × (revoke_module 1 "fms" "reports" opted_out (trial ∷ [])
      ≡ some after)
    × Elem "reports" (or_no_names (lookup "fms" (entitlement_for sold_in 40 1 after opted_out)))
unfolding mode_of is_row_of is_current
revoke_module-over_example =
    revoke_module-over sold_in 40 1 "fms" "reports" opted_out (trial ∷ []) refl (inl (refl, refl))
      refl ((λ h. refl), tt)

revoke_module-unwritten_example :
    (after : List CompanyModule) × (revoke_module 1 "fms" "reports" opted_out [] ≡ some after)
    × Elem "reports" (or_no_names (lookup "fms" (entitlement_for sold_in 20 1 after opted_out)))
unfolding mode_for mode_of
revoke_module-unwritten_example =
    revoke_module-unwritten sold_in 20 1 "fms" "reports" opted_out [] refl refl (inl (refl, refl))
      refl

abbrev market : Market
market = record {
  now = 100;
  today = 20;
  fails = λ call. false;
  uuid_text = λ id. "u";
  parse_uuid = λ text. some 6;
  sort = λ names. names;
}

abbrev staff : Principal
staff = record no_principal { user_id = "six"; is_platform_staff = true }

abbrev sales : Sales
sales = record {
  companies =
      record { id = 1; default_max_devices = 0; fms_tenant_id = none; is_suspended = false } ∷ [];
  next_tenant = 40;
  modules = trial ∷ [];
  settings = opted_out;
  history = [];
  audit = [];
  announced = [];
}

abbrev bought : GrantInput
bought = record {
  company_id = 1;
  product = "tms";
  name = "accounting";
  valid_from = none;
  valid_until = some 30;
}

abbrev granted : Sales
granted = (grant market staff bought sales).1

abbrev withdrawn_sales : Sales
withdrawn_sales = (revoke market staff 1 "fms" "reports" sales).1

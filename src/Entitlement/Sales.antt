-- ===== src/Entitlement/Sales.antt =====
-- What a grant makes of the entitlement of a company.
use authentication_service.Prelude.{String, Bool, true, false, not, ◌&&◌, ◌==◌}
use authentication_service.Prelude.Attempt.{Attempt}
use authentication_service.Prelude.Dict.{Dict}
use authentication_service.Authctx.Features.Tables.{Feature}
use authentication_service.Authctx.Principal.{Principal}
use authentication_service.Entitlement.Service.{GrantInput, Sales, Market, allocate_fms_tenant_id}

-- The entries of an index bear the names of their features, which are built.
abbrev is_entry : String × Feature → Bool
is_entry e = e.0 == e.1.name && not e.1.roadmap

module _ (o : Market) where
  -- The state in which the transaction of a grant starts.
  abbrev begun : Bool → GrantInput → Sales → Sales
  begun true input s = allocate_fms_tenant_id input.company_id s
  begun false input s = s

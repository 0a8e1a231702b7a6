-- ===== src/Authctx/Tests.antt =====
-- Concrete callers, catalogues and requests.
use authentication_service.Prelude.{
  ◌≡◌, ◌≢◌, ◌↔◌, ◌⊎◌, refl, [], ◌∷◌, String, none, some, true, false, Elem, contains,
}
use authentication_service.Prelude.Dict.{lookup}
use authentication_service.Authctx.Product.{feature_for, catalog_for}
use authentication_service.Authctx.Principal.{
  Principal, ProductAccess, no_principal, has_permission, gate_open,
}
use authentication_service.Authctx.Grants.{IsGranted, Allows, has_permission_iff}
use authentication_service.Authctx.Catalog.Shipped.{catalogs}
use authentication_service.Authctx.Catalog.Tms.{tms_catalog}
use authentication_service.Authctx.Features.Registry.{sellable_features}
use authentication_service.Authctx.Features.Validate.{known_features}
use authentication_service.Authctx.Shipped.{has_permission-gated}
use authentication_service.Authctx.Verifier.{Parse}
use authentication_service.Authctx.Middleware.Guards.{bound, authenticate}
use authentication_service.Authctx.Middleware.Auth.{
  AcceptedHere, IsUnsettled, remote_answer, authenticate-bound_iff,
}
use authentication_service.Authctx.Interceptor.{Call}
use authentication_service.Revocation.Held.{Event, user}

abbrev access : ProductAccess
access = record {
  role = "dispatcher";
  permissions = "order.read" ∷ [];
  features = "order" ∷ [];
  grants_all = false;
}

abbrev dispatcher : Principal
dispatcher = record no_principal {
  user_id = "u1";
  company_id = "c1";
  token_id = "s1";
  access = ("tms", access) ∷ [];
}

abbrev signed : Parse
signed token = some (record { principal = dispatcher; issued_at = some 50 }, true)

has_permission_iff_example :
    (has_permission catalogs dispatcher "tms" "order.read" ≡ true)
    ↔ ((dispatcher.is_platform_staff ≡ true) ⊎ Allows catalogs dispatcher "tms" "order.read")
has_permission_iff_example = has_permission_iff catalogs dispatcher "tms" "order.read"

has_permission-gated_example :
    (held : ProductAccess) × (lookup "tms" dispatcher.access ≡ some held)
    × IsGranted held "order.read"
    × ((feature : String) × (feature_for catalogs "tms" "order.read" ≡ some feature)
        × (feature ≢ "")
        × Elem feature held.features
        × Elem feature (known_features sellable_features))
unfolding has_permission contains gate_open feature_for catalog_for catalogs lookup tms_catalog
has_permission-gated_example = has_permission-gated dispatcher "tms" "order.read" refl refl

authenticate-bound_iff_example : (authenticate signed none none "t" ≡ bound dispatcher) ↔ (
    (◌≢◌ {A = String} "t" "")
    × (AcceptedHere signed none "t" dispatcher
        ⊎ (IsUnsettled signed "t" × (remote_answer none "t" ≡ some dispatcher))))
authenticate-bound_iff_example = authenticate-bound_iff signed none none "t" dispatcher

abbrev moved : Event
moved = record { kind = user; id = "u1"; at = 60 }

abbrev internal_call : Call
internal_call = record {
  full_method = "/karlo.Auth/Get";
  metadata = some ("secret" ∷ [], "Bearer t" ∷ []);
}

-- ===== src/Authctx/Features/Tables.antt =====
-- The feature tables of internal/platform/authctx/features.go.
use authentication_service.Prelude.{String, Bool, false, List, [], ◌∷◌}
use authentication_service.Authctx.Product.{Product, product_tms, product_fms, product_shared}

pub record Feature : Type 0 where
  pub name : String
  pub owner : Product
  pub description : String
  pub parent : String
  pub roadmap : Bool

-- A literal that gives the name, the owner and the description only.
abbrev feature : String → Product → String → Feature
feature name owner description = record {
  name = name;
  owner = owner;
  description = description;
  parent = "";
  roadmap = false;
}

unfoldable pub tms_features : List Feature
tms_features =
    feature "order" product_tms "Place, approve and track orders"
    ∷ feature "agreement" product_tms "Rate agreements between shipper and transporter"
    ∷ feature "invoice" product_tms "Billing and settlement"
    ∷ feature "shipment" product_tms "Loading, transit and unloading"
    ∷ feature "truck" product_tms "Fleet register and driver pairing"
    ∷ feature "warehouse" product_tms "Warehouse register and geofencing"
    ∷ feature "customer" product_tms "The company's own customer register"
    ∷ feature "dashboard" product_tms "Operational dashboards and summaries"
    ∷ feature "notification" product_tms "In-app, email and WhatsApp notifications"
    ∷ feature "dispatch" product_tms "Planner assignment: candidate trucks and planned routes"
    ∷ feature "routing.advanced" product_tms "Re-plan routes on demand after assignment"
    ∷ feature "configuration" product_tms "Configuring which fields the company's own forms require"
    ∷ feature "collaboration" product_tms "Managing your own members and roles"
    ∷ feature "masterData" product_tms "Shared reference data: truck types, cargo types, regions"
    ∷ []

unfoldable pub shared_features : List Feature
shared_features =
    feature "vehicle" product_fms "The vehicle register — the core of the fleet system"
    ∷ feature "driver" product_fms "The driver register"
    ∷ feature "administration" product_fms "Managing your own users and roles"
    ∷ feature "accounting" product_shared "The separately sold accounting service"
    ∷ feature "telemetry" product_shared "The separately sold telemetry service, by tier"
    ∷ []

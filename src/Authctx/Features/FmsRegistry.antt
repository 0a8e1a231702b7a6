-- ===== src/Authctx/Features/FmsRegistry.antt =====
-- The mirrored FMS registry (internal/platform/authctx/fms-features.json), entry by entry: key,
-- label, parent, and whether the entry is a roadmap stub.
use authentication_service.Prelude.{String, Bool, true, false, List, [], ◌∷◌}

pub record FmsDef : Type 0 where
  pub key : String
  pub label : String
  pub parent : String
  pub dev : Bool

abbrev def : String → String → String → Bool → FmsDef
def key label parent dev = record { key = key; label = label; parent = parent; dev = dev }

unfoldable pub fms_registry_json : List FmsDef
fms_registry_json =
    def "dashboard" "Dashboard" "" false
    ∷ def "ai_dashboard" "AI Dashboard" "dashboard" false
    ∷ def "live" "Live View" "" false
    ∷ def "geofence" "Geofence" "live" false
    ∷ def "controltower" "Control Tower" "" false
    ∷ def "notifications" "Notifications" "" false
    ∷ def "share_link" "Share Link" "" false
    ∷ def "generate_link" "Generate Link" "share_link" false
    ∷ def "reports" "Reporting" "" false
    ∷ def "custom_report" "Custom Report" "reports" false
    ∷ def "ai_reporting" "AI Reporting" "reports" false
    ∷ def "camera" "Camera (TrackVision)" "" false
    ∷ def "fleet_management" "Fleet Management" "" false
    ∷ def "maintenance" "Maintenance" "fleet_management" false
    ∷ def "hangars" "Workshops" "fleet_management" false
    ∷ def "license" "License" "fleet_management" false
    ∷ def "master_data" "Master Data" "" false
    ∷ def "dashcams" "Dashcam" "master_data" false
    ∷ def "rfid" "RFID" "master_data" false
    ∷ def "users" "Users" "master_data" false
    ∷ def "scorecard" "Driver Performance" "" false
    ∷ def "marketplace" "Marketplace" "" false
    ∷ def "sales" "Sales & Orders" "" true
    ∷ def "orders" "Orders" "sales" true
    ∷ def "invoices" "Invoices" "sales" true
    ∷ def "quotations" "Quotations" "sales" true
    ∷ def "procurement" "Procurement" "" true
    ∷ def "purchase-orders" "Purchase Orders" "procurement" true
    ∷ def "purchase-invoices" "Purchase Invoices" "procurement" true
    ∷ def "purchase-quotes" "Purchase Quotes" "procurement" true
    ∷ def "expenses" "Expenses" "procurement" true
    ∷ def "inventory" "Inventory & Products" "" true
    ∷ def "products" "Products" "inventory" true
    ∷ def "stock" "Inventory" "inventory" true
    ∷ def "warehouses" "Warehouses" "inventory" true
    ∷ def "fixed-assets" "Fixed Assets" "inventory" true
    ∷ def "finance" "Finance" "" true
    ∷ def "cash-bank" "Cash & Bank" "finance" true
    ∷ def "chart-of-accounts" "Chart of Accounts" "finance" true
    ∷ def "cost-centers" "Cost Centers" "finance" true
    ∷ def "journal" "Journal Entries" "finance" true
    ∷ def "payroll" "Payroll" "finance" true
    ∷ def "commerce" "Commerce & CRM" "" true
    ∷ def "pos" "Point of Sale" "commerce" true
    ∷ def "distribution" "Distribution" "commerce" true
    ∷ def "crm" "CRM" "commerce" true
    ∷ def "contacts" "Contacts" "commerce" true
    ∷ []

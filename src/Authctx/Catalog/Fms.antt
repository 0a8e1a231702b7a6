-- ===== src/Authctx/Catalog/Fms.antt =====
-- The FMS permission catalogue (internal/platform/authctx/catalog_fms.go), entry by entry.
use authentication_service.Prelude.{[], ◌∷◌}
use authentication_service.Authctx.Product.{Catalog, spec}

unfoldable pub fms_catalog : Catalog
fms_catalog =
    ("dashboard.view", spec "dashboard.view" "dashboard" "Dashboard" "View dashboard")
    ∷ ("dashboard.ai", spec "dashboard.ai" "ai_dashboard" "Dashboard" "AI dashboard")
    ∷ ("live.view", spec "live.view" "live" "Live Tracking" "View live tracking")
    ∷ ("live.history", spec "live.history" "live" "Live Tracking" "View trip history")
    ∷ ("fuel.view", spec "fuel.view" "live" "Fuel" "View fuel & cost")
    ∷ ("fuel.price_calc", spec "fuel.price_calc" "live" "Fuel" "Fuel price calculation")
    ∷ ("geofence.view", spec "geofence.view" "geofence" "Geofence" "View geofences")
    ∷ ("geofence.manage", spec "geofence.manage" "geofence" "Geofence" "Manage geofences")
    ∷ (
      "controltower.view",
      spec "controltower.view" "controltower" "Control Tower" "View control tower",
    )
    ∷ (
      "notifications.view",
      spec "notifications.view" "notifications" "Notifications" "View notifications",
    )
    ∷ (
      "notifications.manage",
      spec "notifications.manage" "notifications" "Notifications" "Manage notification rules",
    )
    ∷ ("reports.view", spec "reports.view" "reports" "Reporting" "View reports")
    ∷ ("reports.custom", spec "reports.custom" "custom_report" "Reporting" "Custom report builder")
    ∷ ("reports.ai", spec "reports.ai" "ai_reporting" "Reporting" "AI reporting")
    ∷ ("camera.view", spec "camera.view" "camera" "Camera" "View cameras (TrackVision)")
    ∷ ("share_link.view", spec "share_link.view" "share_link" "Share Link" "View share links")
    ∷ (
      "share_link.create",
      spec "share_link.create" "generate_link" "Share Link" "Generate share link",
    )
    ∷ (
      "maintenance.view",
      spec "maintenance.view" "maintenance" "Fleet Management" "View maintenance",
    )
    ∷ (
      "maintenance.manage",
      spec "maintenance.manage" "maintenance" "Fleet Management" "Manage maintenance",
    )
    ∷ ("hangars.view", spec "hangars.view" "hangars" "Fleet Management" "View workshops")
    ∷ ("hangars.manage", spec "hangars.manage" "hangars" "Fleet Management" "Manage workshops")
    ∷ ("license.view", spec "license.view" "license" "Fleet Management" "View licenses")
    ∷ ("license.manage", spec "license.manage" "license" "Fleet Management" "Manage licenses")
    ∷ ("vehicles.view", spec "vehicles.view" "vehicle" "Master Data" "View vehicles")
    ∷ ("vehicles.edit", spec "vehicles.edit" "vehicle" "Master Data" "Add / edit vehicles")
    ∷ ("drivers.view", spec "drivers.view" "driver" "Master Data" "View drivers")
    ∷ ("drivers.edit", spec "drivers.edit" "driver" "Master Data" "Add / edit drivers")
    ∷ ("rfid.manage", spec "rfid.manage" "rfid" "Master Data" "Manage RFID")
    ∷ ("dashcams.manage", spec "dashcams.manage" "camera" "Master Data" "Manage dashcams")
    ∷ ("users.manage", spec "users.manage" "administration" "Administration" "Manage users")
    ∷ ("roles.manage", spec "roles.manage" "administration" "Administration" "Manage roles")
    ∷ []

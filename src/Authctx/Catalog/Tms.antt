-- ===== src/Authctx/Catalog/Tms.antt =====
-- The TMS permission catalogue (internal/platform/authctx/catalog_tms.go), entry by entry.
use authentication_service.Prelude.{[], ◌∷◌}
use authentication_service.Authctx.Product.{Catalog, spec}

unfoldable pub tms_catalog : Catalog
tms_catalog =
    ("order.read", spec "order.read" "order" "Orders" "View orders")
    ∷ ("order.create", spec "order.create" "order" "Orders" "Create orders")
    ∷ ("order.update", spec "order.update" "order" "Orders" "Edit draft orders")
    ∷ ("order.cancel", spec "order.cancel" "order" "Orders" "Cancel orders")
    ∷ ("order.approve", spec "order.approve" "order" "Orders" "Approve or reject orders")
    ∷ ("order.assignDriver", spec "order.assignDriver" "order" "Orders" "Assign a driver and truck")
    ∷ ("order.readyToPlan", spec "order.readyToPlan" "order" "Orders" "Mark ready to plan")
    ∷ ("order.requestDriver", spec "order.requestDriver" "order" "Orders" "Request a driver (3PL)")
    ∷ (
      "order.allowance.read",
      spec "order.allowance.read" "order" "Driver allowance" "View driver allowance",
    )
    ∷ (
      "order.allowance.write",
      spec "order.allowance.write" "order" "Driver allowance" "Set driver allowance",
    )
    ∷ (
      "order.allowance.finalise",
      spec "order.allowance.finalise" "order" "Driver allowance" "Finalise driver allowance",
    )
    ∷ (
      "dispatch.read",
      spec "dispatch.read" "dispatch" "Dispatch" "View candidate trucks and routes",
    )
    ∷ ("dispatch.assign", spec "dispatch.assign" "dispatch" "Dispatch" "Assign a truck to an order")
    ∷ (
      "dispatch.reroute",
      spec "dispatch.reroute" "dispatch" "Dispatch" "Re-plan a route on demand",
    )
    ∷ (
      "config.fields.read",
      spec "config.fields.read" "configuration" "Administration" "View form configuration",
    )
    ∷ (
      "config.fields.write",
      spec "config.fields.write" "configuration" "Administration"
          "Change which fields are required",
    )
    ∷ ("agreement.read", spec "agreement.read" "agreement" "Agreements" "View agreements")
    ∷ ("agreement.create", spec "agreement.create" "agreement" "Agreements" "Create agreements")
    ∷ ("agreement.update", spec "agreement.update" "agreement" "Agreements" "Edit agreements")
    ∷ (
      "agreement.approve",
      spec "agreement.approve" "agreement" "Agreements" "Approve, reject or verify",
    )
    ∷ ("agreement.cancel", spec "agreement.cancel" "agreement" "Agreements" "Cancel agreements")
    ∷ (
      "agreement.revise",
      spec "agreement.revise" "agreement" "Agreements" "Renew or amend an agreement",
    )
    ∷ (
      "agreement.approveRevision",
      spec "agreement.approveRevision" "agreement" "Agreements" "Approve or reject an amendment",
    )
    ∷ (
      "agreement.priceHistory",
      spec "agreement.priceHistory" "agreement" "Agreements" "View price history",
    )
    ∷ ("invoice.read", spec "invoice.read" "invoice" "Invoicing" "View invoices")
    ∷ ("invoice.create", spec "invoice.create" "invoice" "Invoicing" "Create invoices")
    ∷ ("invoice.update", spec "invoice.update" "invoice" "Invoicing" "Change invoice status")
    ∷ ("invoice.approve", spec "invoice.approve" "invoice" "Invoicing" "Verify and settle")
    ∷ ("invoice.export", spec "invoice.export" "invoice" "Invoicing" "Export invoices")
    ∷ ("shipment.read", spec "shipment.read" "shipment" "Shipments" "View shipments")
    ∷ ("shipment.update", spec "shipment.update" "shipment" "Shipments" "Advance a shipment")
    ∷ (
      "shipment.verifyLoading",
      spec "shipment.verifyLoading" "shipment" "Shipments" "Approve loading",
    )
    ∷ (
      "shipment.verifyUnloading",
      spec "shipment.verifyUnloading" "shipment" "Shipments" "Approve unloading",
    )
    ∷ ("truck.read", spec "truck.read" "truck" "Fleet" "View trucks")
    ∷ ("truck.create", spec "truck.create" "truck" "Fleet" "Add trucks")
    ∷ ("truck.update", spec "truck.update" "truck" "Fleet" "Edit trucks")
    ∷ ("truck.delete", spec "truck.delete" "truck" "Fleet" "Remove trucks")
    ∷ ("truck.addDriver", spec "truck.addDriver" "truck" "Fleet" "Pair a driver")
    ∷ ("truck.deleteDriver", spec "truck.deleteDriver" "truck" "Fleet" "Unpair a driver")
    ∷ ("warehouse.read", spec "warehouse.read" "warehouse" "Locations" "View warehouses")
    ∷ ("warehouse.create", spec "warehouse.create" "warehouse" "Locations" "Add warehouses")
    ∷ ("warehouse.update", spec "warehouse.update" "warehouse" "Locations" "Edit warehouses")
    ∷ ("warehouse.delete", spec "warehouse.delete" "warehouse" "Locations" "Remove warehouses")
    ∷ ("customer.read", spec "customer.read" "customer" "Customers" "View customers")
    ∷ ("customer.create", spec "customer.create" "customer" "Customers" "Add customers")
    ∷ ("customer.update", spec "customer.update" "customer" "Customers" "Edit customers")
    ∷ ("customer.delete", spec "customer.delete" "customer" "Customers" "Remove customers")
    ∷ ("dashboard.read", spec "dashboard.read" "dashboard" "Dashboard" "View dashboard")
    ∷ ("dashboard.export", spec "dashboard.export" "dashboard" "Dashboard" "Export dashboard data")
    ∷ (
      "notification.read",
      spec "notification.read" "notification" "Notifications" "View notifications",
    )
    ∷ (
      "notification.update",
      spec "notification.update" "notification" "Notifications" "Manage notification settings",
    )
    ∷ ("masterData.read", spec "masterData.read" "masterData" "Master Data" "View reference data")
    ∷ (
      "masterData.create",
      spec "masterData.create" "masterData" "Master Data" "Add reference data",
    )
    ∷ (
      "masterData.update",
      spec "masterData.update" "masterData" "Master Data" "Edit reference data",
    )
    ∷ (
      "masterData.delete",
      spec "masterData.delete" "masterData" "Master Data" "Remove reference data",
    )
    ∷ (
      "collaboration.read",
      spec "collaboration.read" "collaboration" "Administration" "View members",
    )
    ∷ (
      "collaboration.inviteMember",
      spec "collaboration.inviteMember" "collaboration" "Administration" "Invite members",
    )
    ∷ (
      "collaboration.manageMember",
      spec "collaboration.manageMember" "collaboration" "Administration"
          "Manage member permissions",
    )
    ∷ (
      "collaboration.removeMember",
      spec "collaboration.removeMember" "collaboration" "Administration" "Remove members",
    )
    ∷ ("accounting.read", spec "accounting.read" "accounting" "Accounting" "View accounting")
    ∷ ("accounting.create", spec "accounting.create" "accounting" "Accounting" "Create entries")
    ∷ ("accounting.approve", spec "accounting.approve" "accounting" "Accounting" "Approve entries")
    ∷ (
      "accounting.export",
      spec "accounting.export" "accounting" "Accounting" "Export accounting data",
    )
    ∷ ("telemetry.read", spec "telemetry.read" "telemetry" "Telemetry" "View vehicle positions")
    ∷ ("telemetry.export", spec "telemetry.export" "telemetry" "Telemetry" "Export telemetry")
    ∷ []

-- ===== src/Import/Mapping.antt =====
-- What the import makes of the texts of an export (cmd/import/mapping.go, and the end of
-- cmd/import/plan.go). `lower` stands for strings.ToLower, and `sort` for sort.Strings.
use Prim.Native.Char.{code}
use mathlib.Core.Option
use authentication_service.Prelude.{
  ℕ, String, Bool, true, false, not, ◌&&◌, ◌||◌, List, [], ◌∷◌, Option, none, some, ◌==◌, nat_eq,
  ltb, contains, if◌then◌else◌,
}
use authentication_service.Prelude.Text.{cut_prefix, trim_space}
use authentication_service.Prelude.Dict.{Dict, lookup}
use authentication_service.Auth.Store.{is_nil}
use authentication_service.Abbrev.Derive.{bytes, take_bytes}

-- `strings.ReplaceAll(s, "\x00", "")`
unfoldable pub without_nul : String → String
without_nul String.[] = ""
without_nul (String.◌∷◌ c s) =
    let rest = without_nul s in if nat_eq (code c) 0 then rest else String.◌∷◌ c rest

unfoldable pub sanitise : String → String
unfolding without_nul trim_space
sanitise s = trim_space (without_nul s)

-- strings.HasSuffix, of a suffix that is not empty.
unfoldable pub has_suffix : String → String → Bool
has_suffix String.[] suffix = false
has_suffix (String.◌∷◌ c s) suffix =
    let later = has_suffix s suffix in if String.◌∷◌ c s == suffix then true else later

-- The cases of canonicalRole: the role, and whether the person is staff of the platform.
abbrev pub known_roles : Dict (String × Bool)
known_roles =
    ("shipper", ("shipper", false))
    ∷ ("transporter", ("transporter", false))
    ∷ ("driver", ("driver", false))
    ∷ ("warehousepic", ("warehousePic", false))
    ∷ ("pic", ("warehousePic", false))
    ∷ ("manager", ("manager", false))
    ∷ ("merchant", ("merchant", false))
    ∷ ("investor", ("investor", false))
    ∷ ("admin", ("admin", true))
    ∷ ("superadmin", ("admin", true))
    ∷ []

-- The loop over the suffixes.
unfoldable pub compound_role : List String → String → String × Bool
unfolding has_suffix cut_prefix
compound_role [] clean = ("", false)
compound_role (suffix ∷ suffixes) clean =
    let later = compound_role suffixes clean in
    if has_suffix clean suffix && not (clean == suffix)
    then (suffix, not (is_nil (cut_prefix "admin" clean)))
    else later

abbrev pub or_compound : String → Option (String × Bool) → String × Bool
or_compound clean none = compound_role ("manager" ∷ "transporter" ∷ "shipper" ∷ "driver" ∷ []) clean
or_compound clean (some known) = known

-- legacyPermissions
abbrev pub legacy_permissions : Dict String
legacy_permissions =
    ("permission.order.create", "order.create")
    ∷ ("permission.order.read", "order.read")
    ∷ ("permission.order.update", "order.update")
    ∷ ("permission.order.cancel", "order.cancel")
    ∷ ("permission.order.approval", "order.approve")
    ∷ ("permission.order.assignDriver", "order.assignDriver")
    ∷ ("permission.order.readyToPlan", "order.readyToPlan")
    ∷ ("permission.order.requestPickDriverToTransporter", "order.requestDriver")
    ∷ ("permission.agreement.create", "agreement.create")
    ∷ ("permission.agreement.read", "agreement.read")
    ∷ ("permission.agreement.update", "agreement.update")
    ∷ ("permission.agreement.approve", "agreement.approve")
    ∷ ("permission.invoice.read", "invoice.read")
    ∷ ("permission.invoice.update", "invoice.update")
    ∷ ("permission.invoice.submitInvoice", "invoice.create")
    ∷ ("permission.invoice.cancel", "invoice.update")
    ∷ ("permission.truck.create", "truck.create")
    ∷ ("permission.truck.read", "truck.read")
    ∷ ("permission.truck.update", "truck.update")
    ∷ ("permission.truck.delete", "truck.delete")
    ∷ ("permission.truck.addDriver", "truck.addDriver")
    ∷ ("permission.truck.deleteDriver", "truck.deleteDriver")
    ∷ ("permission.warehouse.create", "warehouse.create")
    ∷ ("permission.warehouse.read", "warehouse.read")
    ∷ ("permission.warehouse.update", "warehouse.update")
    ∷ ("permission.warehouse.delete", "warehouse.delete")
    ∷ ("permission.warehouseManager.read", "shipment.read")
    ∷ ("permission.warehouseManager.update", "shipment.update")
    ∷ ("permission.warehouseManager.verify", "shipment.verifyLoading")
    ∷ ("permission.collaboration.read", "collaboration.read")
    ∷ ("permission.collaboration.inviteMember", "collaboration.inviteMember")
    ∷ ("permission.collaboration.removeMember", "collaboration.removeMember")
    ∷ ("permission.dashboard.read", "dashboard.read")
    ∷ ("permission.report.read", "dashboard.read")
    ∷ []

-- The keys of the columns that are set, each once.
unfoldable pub keys_of : (String → Bool) → List String → Dict String → List String
unfolding contains
keys_of is_set seen [] = []
keys_of is_set seen ((column, key) ∷ table) =
    let found = key ∷ keys_of is_set (key ∷ seen) table in
    let rest = keys_of is_set seen table in
    if is_set column && not (contains seen key) then found else rest

-- legacyKeysOf
unfoldable pub legacy_keys_of : (List String → List String) → (String → Bool) → List String
unfolding keys_of
legacy_keys_of sort is_set = sort (keys_of is_set [] legacy_permissions)

-- clamp: none where the cut falls inside a character.
unfoldable pub clamp : String → ℕ → Option String
unfolding bytes take_bytes trim_space
clamp v max = if not (ltb max (bytes v)) then some v else Option.map trim_space (take_bytes max v)

module _ (lower : String → String) where
  -- canonicalRole
  unfoldable pub canonical_role : String → String × Bool
  unfolding sanitise trim_space lookup compound_role
  canonical_role raw =
      let clean = lower (trim_space (sanitise raw)) in or_compound clean (lookup clean known_roles)

  abbrev pub side_of : String → String
  side_of role =
      if role == "transporter" || role == "driver"
      then "transporter"
      else if role == "shipper" || (role == "warehousePic" || role == "manager")
      then "shipper"
      else if role == ""
      then "shipper"
      else role

  -- companyRoleOf
  unfoldable pub company_role_of : String → String
  unfolding canonical_role
  company_role_of raw = side_of (canonical_role raw).0

  -- languageOf
  unfoldable pub language_of : String → String
  language_of v = if lower v == "en" then "en" else "id"

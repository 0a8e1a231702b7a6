-- ===== src/Drivers/Registered.antt =====
-- What a registration of a driver and an adoption leave.
use authentication_service.Prelude.{
  String, Bool, true, false, ◌&&◌, List, [], ◌∷◌, map, all, some, ◌==◌, eq_iff, nat_eq, nat_eq_iff,
  contains, contains-append, ◌≡◌, ◌⊎◌, refl, ap, arith, Elem, Elem-append_right, Bool-cases,
  Option-cases, inl, inr,
}
use authentication_service.Auth.Store.{Uuid, User}
use authentication_service.Auth.Sessions.{first}
use authentication_service.Access.Build.{RoleRow}
use authentication_service.Users.Directory.{Directory}
use authentication_service.Users.Registration.{Fresh, new_user}
use authentication_service.Drivers.Accounts.{
  DriverTables, CreateDriverAccountInput, driver_role_name, driver_role_permissions, find_by_name,
  missing_keys, topped_up, is_system, update_role, top_up, is_none, new_driver_role,
  ensure_driver_role, registration,
}

-- The role of a driver: a row of the company by that name, with the keys that the app needs, unless the
-- company has made the role itself.
abbrev pub IsDriverRole : Uuid → Uuid → DriverTables → RoleRow → Type 0
IsDriverRole company id t row =
    Elem row t.registry.directory.roles
    × (row.id ≡ id)
    × (row.company_id ≡ company)
    × (row.role.name ≡ "Driver")
    × ((is_system id t ≡ false)
        ⊎ (all (contains row.role.permissions) driver_role_permissions ≡ true))

first-found :
    (p : RoleRow → Bool) (rows : List RoleRow) (row : RoleRow)
    → first p rows ≡ some row
    → Elem row rows × (p row ≡ true)
unfolding first
first-found p [] row h = absurd (cc)
first-found p (r ∷ rows) row h = elim (Bool-cases (p r)) [
  | inl here ↦ let is : r ≡ row = ground (arith, h, here) in (inl is, rw (← is) here)
  | inr other ↦
      let (later, holds) = first-found p rows row (ground (arith, h, other)) in (inr later, holds)
]

Elem-map :
    (f : RoleRow → RoleRow) (row : RoleRow) (rows : List RoleRow)
    → Elem row rows
    → Elem (f row) (map f rows)
Elem-map f row [] m = absurd m
Elem-map f row (r ∷ rows) (inl here) = inl (ap f here)
Elem-map f row (r ∷ rows) (inr later) = inr (Elem-map f row rows later)

topped_up-all :
    (row : RoleRow) → all (contains (topped_up row).role.permissions) driver_role_permissions ≡ true
unfolding contains
topped_up-all row = ground (
  arith,
  contains-append row.role.permissions (missing_keys row) "tms:shipment.read",
  contains-append row.role.permissions (missing_keys row) "tms:shipment.update",
  contains-append row.role.permissions (missing_keys row) "tms:order.read",
)

none-missing :
    (row : RoleRow)
    → is_none (missing_keys row) ≡ true
    → all (contains row.role.permissions) driver_role_permissions ≡ true
none-missing row h = ground (arith, h)

top_up-IsDriverRole :
    (company : Uuid) (row : RoleRow) (t : DriverTables)
    → Elem row t.registry.directory.roles
    → row.company_id ≡ company
    → row.role.name ≡ "Driver"
    → (found : RoleRow) × IsDriverRole company row.id (top_up company row t) found
unfolding top_up update_role
top_up-IsDriverRole company row t among owned named =
    elim (Bool-cases (is_none (missing_keys row))) [
      | inl complete ↦
          rw (complete) (row, (among, refl, owned, named, inr (none-missing row complete)))
      | inr lacks ↦ elim (Bool-cases (is_system row.id t)) [
        | inr own ↦ rw (lacks, own) (row, (among, refl, owned, named, inl own))
        | inl system ↦
            let keys = (topped_up row).role.permissions in
            let is : update_role company row.id keys row ≡ topped_up row =
              ground (arith, nat_eq_iff row.id row.id, nat_eq_iff row.company_id company, owned) in
            rw (lacks, system)
              (
                topped_up row,
                (
                  rw is at (
                      Elem-map (update_role company row.id keys) row t.registry.directory.roles
                        among),
                  refl,
                  owned,
                  named,
                  inr (topped_up-all row),
                ),
              )
      ]
    ]

-- What ensureDriverRole answers with, and leaves.
pub ensure_driver_role-IsDriverRole :
    (new company : Uuid) (t : DriverTables)
    → ((row : RoleRow) × IsDriverRole company
          (ensure_driver_role new company t).0
          (ensure_driver_role new company t).1
          row)
      × ((ensure_driver_role new company t).1.registry.directory.store ≡ t.registry.directory.store)
      × ((ensure_driver_role new company t).1.registry.tenants ≡ t.registry.tenants)
unfolding ensure_driver_role find_by_name top_up
ensure_driver_role-IsDriverRole new company t =
    elim (Option-cases (find_by_name company driver_role_name t.registry.directory.roles)) [
      | inl missing ↦ rw missing (
        (
          new_driver_role new company,
          (
            Elem-append_right (new_driver_role new company) t.registry.directory.roles
                (new_driver_role new company ∷ []) (inl refl),
            refl,
            refl,
            refl,
            inr refl,
          ),
        ),
        refl,
        refl,
      )
      | inr (row, found) ↦
          let (among, holds) =
            first-found (λ r. nat_eq r.company_id company && r.role.name == driver_role_name)
              t.registry.directory.roles row found in
          rw found (
            top_up-IsDriverRole company row t among
                (ground (arith, holds, nat_eq_iff row.company_id company))
                (ground (arith, holds, eq_iff row.role.name "Driver")),
            ground arith,
            ground arith,
          )
    ]

module _ (f : Fresh) where
  -- The row that Create asks a registration for.
  abbrev pub driver_row : Uuid → Uuid → Uuid → String → CreateDriverAccountInput → User
  driver_row actor company role username input =
      record (new_user f (registration actor company role username input) (some company)) {
        role_id = some role;
      }

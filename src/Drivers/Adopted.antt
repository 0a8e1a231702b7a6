-- ===== src/Drivers/Adopted.antt =====
-- What an adoption leaves.
use authentication_service.Prelude.{
  true, false, none, some, nat_eq_iff, ◌≡◌, ◌≢◌, ◌⊎◌, refl, ap, ◌∙◌, arith, Bool-cases,
  Option-cases, inl, inr,
}
use authentication_service.Prelude.Attempt.{yields, fails}
use authentication_service.Auth.Store.{Uuid, User, Store}
use authentication_service.Auth.Sessions.{find_user}
use authentication_service.Access.Build.{RoleRow}
use authentication_service.Users.Updated.{find_user-update_where, find_user-users}
use authentication_service.Drivers.Accounts.{
  DriverTables, DriverAccount, other_company, to_driver_account, ensure_driver_role, is_elsewhere,
  as_driver, attach, adopt, adopt_account,
}
use authentication_service.Drivers.Registered.{IsDriverRole, ensure_driver_role-IsDriverRole}

not_elsewhere :
    (company : Uuid) (u : User)
    → is_elsewhere company u ≡ false
    → (u.company_id ≡ none) ⊎ (u.company_id ≡ some company)
not_elsewhere company u h = elim (Option-cases u.company_id) [
  | inl nowhere ↦ inl nowhere
  | inr (c, is) ↦ inr (is ∙ ap some ((nat_eq_iff c company).0 (ground (arith, rw is at h))))
]

attach-left :
    (company role id : Uuid) (t : DriverTables) (u : User)
    → find_user id t.registry.directory.store ≡ some u
    → (find_user id (attach company role id t).registry.directory.store
        ≡ some (as_driver company role u))
      × ((attach company role id t).registry.directory.store.sessions
          ≡ t.registry.directory.store.sessions)
      × ((attach company role id t).registry.directory.store.announced
          ≡ t.registry.directory.store.announced)
unfolding attach
attach-left company role id t u found = (
  find_user-update_where id (as_driver company role) t.registry.directory.store u refl found,
  refl,
  refl,
)

attached-IsDriverRole :
    (company role id : Uuid) (t : DriverTables) (row : RoleRow)
    → IsDriverRole company role t row
    → IsDriverRole company role (attach company role id t) row
unfolding attach
attached-IsDriverRole company role id t row h = h

elsewhere-other :
    (company : Uuid) (u : User)
    → is_elsewhere company u ≡ true
    → (c : Uuid) × (u.company_id ≡ some c) × (c ≢ company)
elsewhere-other company u h = elim (Option-cases u.company_id) [
  | inl nowhere ↦ absurd (ground (arith, rw nowhere at h))
  | inr (c, is) ↦ (c, is, ground (arith, rw is at h, nat_eq_iff c company))
]

-- The account is of the company under its role for drivers, with everything else as it was; no session
-- has ended, nor is anything announced.
abbrev pub Adopted : Uuid → Uuid → User → DriverTables → DriverTables → Type 0
Adopted company id u t after =
    (row : RoleRow) × IsDriverRole company row.id after row
    × (find_user id after.registry.directory.store
        ≡ some (record u { company_id = some company; role_id = some row.id }))
    × (after.registry.directory.store.sessions ≡ t.registry.directory.store.sessions)
    × (after.registry.directory.store.announced ≡ t.registry.directory.store.announced)

attach-Adopted :
    (new company id : Uuid) (t : DriverTables) (u : User)
    → find_user id t.registry.directory.store ≡ some u
    → Adopted company id u t (
        attach company (ensure_driver_role new company t).0 id (ensure_driver_role new company t).1)
attach-Adopted new company id t u found =
    let role = (ensure_driver_role new company t).0 in
    let ensured = (ensure_driver_role new company t).1 in
    let ((row, driver), store, _) = ensure_driver_role-IsDriverRole new company t in
    let there =
      find_user-users id ensured.registry.directory.store t.registry.directory.store
        (ap (λ (s : Store). s.users) store)
      ∙ found in
    let (now, sessions, announced) = attach-left company role id ensured u there in
    let (among, is, owned, named, keys) =
      attached-IsDriverRole company role id ensured row driver in
    (
      row,
      rw is (among, refl, owned, named, keys),
      rw is now,
      sessions ∙ ap (λ (s : Store). s.sessions) store,
      announced ∙ ap (λ (s : Store). s.announced) store,
    )

-- An account that is in no company or in this one already is adopted, whatever its role there and
-- whether or not it is staff of the platform: Adopt succeeds, and the account is of the company under
-- its role for drivers, with everything else as it was; and no session of it has ended, nor is anything
-- announced. An account of another company is refused, and nothing is written.
pub adopt-IsDriverRole :
    (new company id : Uuid) (t : DriverTables) (u : User)
    → find_user id t.registry.directory.store ≡ some u
    → (((u.company_id ≡ none) ⊎ (u.company_id ≡ some company))
        × (a : DriverAccount) × (after : DriverTables) × (adopt new company id t
            ≡ (yields a, after))
        × (a.user_id ≡ u.id)
        × Adopted company id u t after)
      ⊎ ((c : Uuid) × (u.company_id ≡ some c)
          × (c ≢ company)
          × (adopt new company id t ≡ (fails other_company, t)))
unfolding adopt adopt_account to_driver_account
adopt-IsDriverRole new company id t u found = elim (Bool-cases (is_elsewhere company u)) [
  | inl other ↦
      let (c, is, apart) = elsewhere-other company u other in
      inr (c, is, apart, rw found (rw other refl))
  | inr here ↦ inl (
    not_elsewhere company u here,
    to_driver_account (as_driver company (ensure_driver_role new company t).0 u),
    attach company (ensure_driver_role new company t).0 id (ensure_driver_role new company t).1,
    rw found (rw here refl),
    refl,
    attach-Adopted new company id t u found,
  )
]

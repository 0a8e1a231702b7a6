-- ===== src/Users/Usable.antt =====
-- What SetPermission grants can be used.
use authentication_service.Prelude.{
  All-Elem, ℕ, String, true, false, List, [], ◌∷◌, ◌++◌, map, Option, none, some, nat_eq,
  nat_eq_iff, ◌≡◌, ◌↔◌, refl, arith, Elem, Elem-append, Option-cases, inl, inr,
}
use authentication_service.Authctx.Principal.{Principal, has_permission}
use authentication_service.Auth.Store.{Uuid, User}
use authentication_service.Auth.Sessions.{first, find_user}
use authentication_service.Access.Keys.{ExtraGrants}
use authentication_service.Access.Visible.{ExtraMentions}
use authentication_service.Access.Build.{
  Person, RoleRow, ExtraRow, active_for_company, extras_of, joined_role, build_access, with_role,
  find_role as role_row,
}
use authentication_service.Access.Reach.{staff_found, CompanyHolds, build_access-has_permission}
use authentication_service.Prelude.Dict.{lookup}
use authentication_service.Entitlement.Features.{entitlement_for, or_no_names}
use authentication_service.Entitlement.Purchases.{entitlement_for-Holds}
use authentication_service.Users.Directory.{Directory, access_tables, person_of, Outside, done}
use authentication_service.Users.Permissions.{upsert, extra_row, set_permission}
use authentication_service.Users.Steps.{Closed, held_in}
use authentication_service.Users.Granted.{IsGrantable, set_permission-Granted}

-- An extra that has been written is read back.
extras_of-upsert :
    (target : Uuid) (product : String) (keys : List String) (key : String) (rows : List ExtraRow)
    → Elem key keys
    → ExtraGrants product key (extras_of target (upsert (extra_row target product keys true) rows))
      × ExtraMentions product (extras_of target (upsert (extra_row target product keys true) rows))
unfolding extras_of upsert
extras_of-upsert target product keys key [] among = ground (arith, among, nat_eq_iff target target)
extras_of-upsert target product keys key (row ∷ rows) among =
    ground
      (arith, among, nat_eq_iff target target, extras_of-upsert target product keys key rows among)

first-person_of :
    (id : Uuid) (us : List User) (u : User)
    → first (λ u. nat_eq u.id id) us ≡ some u
    → first (λ (q : Person). nat_eq q.id id) (map person_of us) ≡ some (person_of u)
unfolding first
first-person_of id [] u h = absurd (cc)
first-person_of id (v ∷ us) u h = ground (arith, first-person_of id us u)

with_role-staff :
    (roles : List RoleRow) (q : Person) (role : Option ℕ)
    → q.is_platform_staff ≡ false
    → staff_found (with_role roles q role) ≡ false
with_role-staff roles q none tenant = refl
with_role-staff roles q (some id) tenant = elim (Option-cases (role_row roles id)) [
  | inl missing ↦ ground (arith, missing)
  | inr (row, found) ↦ ground (arith, found, tenant)
]

pub tenant_staff :
    (d : Directory) (id : Uuid) (u : User)
    → find_user id d.store ≡ some u
    → u.is_platform_staff ≡ false
    → staff_found (joined_role (access_tables d) id) ≡ false
unfolding joined_role find_user
tenant_staff d id u found tenant =
    rw (first-person_of id d.store.users u found, staff_found)
      (with_role-staff d.roles (person_of u) u.role_id tenant)

module _ (o : Outside) where
  same_tables :
      (target : Uuid) (between after : Directory)
      → Closed o target between after
      → access_tables after ≡ access_tables between
  same_tables target between after (_, _, users, roles, extras, modules, settings) =
      rw (users, roles, extras, modules, settings) refl

  held_in-CompanyHolds :
      (company : Uuid) (product feature : String) (d : Directory)
      → ((v : String) (xs : List String) → Elem v (o.sort xs) ↔ Elem v xs)
      → Elem feature (held_in o company product d)
      → CompanyHolds o.sellable o.today (access_tables d) company product feature
  unfolding active_for_company
  held_in-CompanyHolds company product feature d sorts held =
      let features = entitlement_for o.sellable o.today company d.modules d.settings in
      ground (
        arith,
        held,
        sorts feature
            (or_no_names (lookup product features) ++ or_no_names (lookup "shared" features)),
        Elem-append feature (or_no_names (lookup product features))
            (or_no_names (lookup "shared" features)),
        entitlement_for-Holds o.sellable o.today company d.modules d.settings product feature,
        entitlement_for-Holds o.sellable o.today company d.modules d.settings "shared" feature,
      )

-- What SetPermission grants can be used: with a sort that keeps the elements of a list, once it is done
-- for a target of a company that is not staff, a caller whose access is then built for the target has
-- each of the permissions in the product.
pub set_permission-has_permission :
    (o : Outside) (actor target company : Uuid) (product key : String) (permissions : List String)
    (before after : Directory) (t : User) (p : Principal)
    → ((v : String) (xs : List String) → Elem v (o.sort xs) ↔ Elem v xs)
    → set_permission o actor target product permissions before ≡ (done tt, after)
    → find_user target before.store ≡ some t
    → t.company_id ≡ some company
    → t.is_platform_staff ≡ false
    → p.is_platform_staff ≡ false
    → p.access ≡ build_access o.sort o.sellable o.today (access_tables after) target (some company)
    → Elem key permissions
    → has_permission o.catalogs p product key ≡ true
set_permission-has_permission o actor target company product key permissions before after t p sorts
      h found member tenant caller built among =
    let (a, t', company', g) =
      set_permission-Granted o actor target product permissions before after h in
    let between = record before {
      extras = upsert (extra_row target product permissions true) before.extras;
    } in
    let (feature, known, gate) =
      All-Elem (IsGrantable o.catalogs (held_in o company' product before) product) key permissions
        g.grantable among in
    let same_company : company' ≡ company =
      ground (arith, g.target_is, found, g.target_in, member) in
    let tables = same_tables o target between after g.closed in
    let (granted, mentioned) =
      extras_of-upsert target product permissions key before.extras among in
    (build_access-has_permission o.sort o.sellable o.today (access_tables between) target company
        o.catalogs p product key (tenant_staff between target t found tenant) caller
        (rw (← tables) built)).1
      (
        inr (inr mentioned),
        inr (inr granted),
        (
          feature,
          known,
          elim gate [
            | inl ungated ↦ inl ungated
            | inr held ↦ inr (
                held_in-CompanyHolds o company product feature before sorts
                  (rw (← same_company) held))
          ],
        ),
      )

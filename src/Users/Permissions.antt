-- ===== src/Users/Permissions.antt =====
-- The methods that change what a user may do: SetPermission, SetProductAccess, RevokeProductAccess,
-- AssignRole and CheckPermission, with the statements of AccessRepository that they call.
use authentication_service.Prelude.{
  String, Bool, true, false, not, ◌&&◌, ◌||◌, List, [], ◌∷◌, any, Option, none, some, ◌==◌, nat_eq,
  contains, if◌then◌else◌,
}
use authentication_service.Authctx.Product.{Catalogs, PermissionSpec, feature_for}
use Prim.Native.String.{◌++◌ as join}
use authentication_service.Prelude.Dict.{Dict}
use authentication_service.Authctx.Features.Registry.{is_known_product}
use authentication_service.Authctx.Principal.{
  Principal, ProductAccess, no_principal, has_permission, grantable_from,
}
use authentication_service.Auth.Store.{Uuid, User, is_nil}
use authentication_service.Auth.Sessions.{find_user}
use authentication_service.Access.Build.{RoleRow, ExtraRow, build_access}
use authentication_service.Users.Directory.{
  Directory, access_tables, Refusal, not_found, forbidden, invalid, administers_already, no_company,
  foreign_role, internal, find_actor, find_target, find_role, write, build, Outside, done, failed,
  Act, ◌>>=◌, ◌>>◌, give, demand, expect, change, get_user, end_sessions_of, noted, held_features,
  find_role_of,
}

-- `a != nil && b != nil && *a == *b`
abbrev pub same_id : Option Uuid → Option Uuid → Bool
same_id none b = false
same_id (some a) none = false
same_id (some a) (some b) = nat_eq a b

abbrev pub is_row_for : Uuid → String → ExtraRow → Bool
is_row_for id product row = nat_eq row.user_id id && row.extra.product == product

-- `INSERT … ON CONFLICT (user_id, product) DO UPDATE`
unfoldable pub upsert : ExtraRow → List ExtraRow → List ExtraRow
upsert new [] = new ∷ []
upsert new (row ∷ rows) =
    let rest = upsert new rows in
    if is_row_for new.user_id new.extra.product row then new ∷ rows else row ∷ rest

-- `UPDATE … SET enabled = FALSE WHERE user_id = ? AND product = ?`
unfoldable pub disable : Uuid → String → List ExtraRow → List ExtraRow
disable id product [] = []
disable id product (row ∷ rows) =
    (if is_row_for id product row then record row { enabled = false } else row)
    ∷ disable id product rows

-- `UPDATE users … WHERE id = ?`
unfoldable pub update_where : Uuid → (User → User) → List User → List User
update_where id f [] = []
update_where id f (u ∷ us) = (if nat_eq u.id id then f u else u) ∷ update_where id f us

abbrev pub is_administrator : Option RoleRow → Bool
is_administrator none = false
is_administrator (some row) = row.role.grants_all

-- roleOf
unfoldable pub role_of : User → Directory → Option RoleRow
unfolding find_role_of
role_of u d = elim u.role_id [
  | none ↦ none
  | some role ↦ elim u.company_id [ none ↦ none | some company ↦ find_role_of company role d ]
]

module _ (catalogs : Catalogs) where
  -- The loop of assertGrantable: the first key that cannot be granted.
  unfoldable pub refused_key : List String → String → List String → Option Refusal
  unfolding feature_for contains
  refused_key held product [] = none
  refused_key held product (key ∷ keys) =
      let rest = refused_key held product keys in
      elim (feature_for catalogs product key) [
        | none ↦ some invalid
        | some feature ↦
            if feature == ""
            then rest
            else if not (contains held feature)
            then some forbidden
            else rest
      ]

abbrev pub or_refuse : Option Refusal → Act (Unit {0})
or_refuse none d = (done tt, d)
or_refuse (some e) d = (failed e, d)

abbrev pub extra_row : Uuid → String → List String → Bool → ExtraRow
extra_row id product permissions enabled = record {
  user_id = id;
  extra = record { product = product; permissions = permissions };
  enabled = enabled;
}

module _ (o : Outside) where
  -- assertGrantable
  unfoldable pub assert_grantable : Uuid → String → List String → Act (Unit {0})
  unfolding held_features refused_key
  assert_grantable company product permissions = do
    held ← held_features o company product
    or_refuse (refused_key o.catalogs held product permissions)

  -- GrantablePermissions
  unfoldable pub grantable_to : Uuid → String → Act (List PermissionSpec)
  unfolding held_features grantable_from
  grantable_to company product = do
    held ← held_features o company product
    give (grantable_from o.catalogs product held)

  -- AccessRepository.GrantProductAccess and RevokeProductAccess
  unfoldable pub grant_access : ExtraRow → Act (Unit {0})
  unfolding upsert
  grant_access row = do
    demand (not (o.fails write)) internal
    change (λ d. record d { extras = upsert row d.extras })

  unfoldable pub disable_access : Uuid → String → Act (Unit {0})
  unfolding disable
  disable_access id product = do
    demand (not (o.fails write)) internal
    λ d. demand (any (is_row_for id product) d.extras) not_found d
    change (λ d. record d { extras = disable id product d.extras })

  -- UserRepository.UpdateFields
  unfoldable pub update_user : Uuid → (User → User) → Act (Unit {0})
  unfolding update_where find_user
  update_user id f = do
    demand (not (o.fails write)) internal
    λ d. demand (not (is_nil (find_user id d.store))) not_found d
    change (λ d. record d { store = record d.store { users = update_where id f d.store.users } })

  -- The sessions end, and the change is noted.
  unfoldable pub closing : Uuid → Uuid → Act (Unit {0})
  unfolding end_sessions_of noted
  closing target actor = do end_sessions_of o target; noted o "permission.changed" target actor

  -- SetPermission
  unfoldable pub set_permission : Uuid → Uuid → String → List String → Act (Unit {0})
  unfolding get_user role_of assert_grantable grant_access closing
  set_permission actor target product permissions = do
    a ← get_user o find_actor actor
    t ← get_user o find_target target
    demand (same_id a.company_id t.company_id) forbidden
    λ d. demand (o.fails find_role || not (is_administrator (role_of t d))) administers_already d
    company ← expect forbidden t.company_id
    assert_grantable company product permissions
    grant_access (extra_row target product permissions true)
    closing target actor

  -- The checks of SetProductAccess on the company of the target, if it has one.
  unfoldable pub assert_held : Option Uuid → String → List String → Act (Unit {0})
  unfolding held_features assert_grantable
  assert_held none product permissions = give tt
  assert_held (some company) product permissions = do
    held ← held_features o company product
    demand (any (λ f. true) held) forbidden
    assert_grantable company product permissions

  -- SetProductAccess
  unfoldable pub set_product_access : Uuid → Uuid → String → List String → Bool → Act (Unit {0})
  unfolding is_known_product get_user assert_held grant_access closing
  set_product_access actor target product permissions enabled = do
    demand (is_known_product product) invalid
    a ← get_user o find_actor actor
    t ← get_user o find_target target
    demand (a.is_platform_staff || same_id a.company_id t.company_id) forbidden
    assert_held t.company_id product permissions
    grant_access (extra_row target product permissions enabled)
    closing target actor

  -- RevokeProductAccess
  unfoldable pub revoke_product_access : Uuid → Uuid → String → Act (Unit {0})
  unfolding get_user disable_access closing
  revoke_product_access actor target product = do
    a ← get_user o find_actor actor
    t ← get_user o find_target target
    demand (a.is_platform_staff || same_id a.company_id t.company_id) forbidden
    disable_access target product
    closing target actor

  -- `*actor.CompanyID`, or the target's company where it has one.
  abbrev pub role_owner : Uuid → Option Uuid → Uuid
  role_owner own none = own
  role_owner own (some company) = company

  -- AssignRole
  unfoldable pub assign_role : Uuid → Uuid → Uuid → Act (Unit {0})
  unfolding get_user find_role_of update_user closing
  assign_role actor target role = do
    a ← get_user o find_actor actor
    own ← expect no_company a.company_id
    t ← get_user o find_target target
    demand (a.is_platform_staff || same_id (some own) t.company_id) forbidden
    demand (not (o.fails find_role)) foreign_role
    λ d. demand (not (is_nil (find_role_of (role_owner own t.company_id) role d))) foreign_role d
    update_user target (λ u. record u { role_id = some role })
    closing target actor

  -- The principal of CheckPermission.
  unfoldable pub principal_for : User → Dict ProductAccess → Principal
  principal_for u access = record no_principal {
    user_id = o.uuid_text u.id;
    company_id = elim u.company_id [ none ↦ "" | some company ↦ o.uuid_text company ];
    is_platform_staff = u.is_platform_staff;
    access = access;
  }

  -- CheckPermission, for the product of the process.
  unfoldable pub check_permission : String → Uuid → String → String → Act Bool
  unfolding get_user build_access has_permission principal_for
  check_permission product id part action = do
    u ← get_user o find_target id
    if u.is_suspended then give false else if u.is_platform_staff then give true else do
      demand (not (o.fails build)) internal
      λ d.
          give
            (has_permission o.catalogs
              (principal_for u
                (build_access o.sort o.sellable o.today (access_tables d) id u.company_id))
              product (join part (join "." action)))
            d

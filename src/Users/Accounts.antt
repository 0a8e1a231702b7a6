-- ===== src/Users/Accounts.antt =====
-- The methods on an account itself: SetSuspended, Delete, GrantPlatformStaff, and the allowlists of
-- UpdateProfile and AdminUpdate.
use authentication_service.Prelude.{
  String, Bool, true, false, not, List, [], ◌∷◌, Option, none, some, nat_eq, keep,
}
use authentication_service.Prelude.Dict.{Dict, lookup, insert}
use authentication_service.Auth.Store.{Uuid, User, is_nil}
use authentication_service.Auth.Sessions.{find_user}
use authentication_service.Users.Directory.{
  not_found, nothing_to_update, internal, write, Outside, failed, Act, ◌>>◌, demand, change,
  end_sessions_of, noted,
}
use authentication_service.Users.Permissions.{update_user}

module _ (o : Outside) where
  abbrev pub after_suspension : Uuid → Uuid → Bool → Act (Unit {0})
  after_suspension actor target true =
      end_sessions_of o target >> noted o "user.suspended" target actor
  after_suspension actor target false = noted o "user.unsuspended" target actor

  -- SetSuspended
  unfoldable pub set_suspended : Uuid → Uuid → Bool → Act (Unit {0})
  unfolding update_user end_sessions_of noted
  set_suspended actor target suspended = do
    update_user o target (λ u. record u { is_suspended = suspended })
    after_suspension actor target suspended

  -- UserRepository.SoftDelete: a deleted row is no longer one of the users.
  unfoldable pub soft_delete : Uuid → Act (Unit {0})
  unfolding find_user
  soft_delete id = do
    demand (not (o.fails write)) internal
    λ d. demand (not (is_nil (find_user id d.store))) not_found d
    change (λ d. record d {
      store = record d.store { users = keep (λ u. not (nat_eq u.id id)) d.store.users };
    })

  -- Delete
  unfoldable pub delete_user : Uuid → Uuid → Act (Unit {0})
  unfolding end_sessions_of soft_delete noted
  delete_user actor target = do
    end_sessions_of o target
    soft_delete target
    noted o "user.deleted" target actor

  -- GrantPlatformStaff
  unfoldable pub grant_platform_staff : Uuid → Uuid → Act (Unit {0})
  unfolding update_user noted
  grant_platform_staff actor target = do
    update_user o target (λ u. record u { is_platform_staff = true })
    noted o "platform_staff.granted" target actor

-- projectAllowed
abbrev pub put_column {ℓ} : {V : Type ℓ} → Option String → V → Dict V → Dict V
put_column none v out = out
put_column (some column) v out = insert column v out

unfoldable pub project_allowed {ℓ} : {V : Type ℓ} → Dict V → Dict String → Dict V
unfolding lookup insert
project_allowed [] allowed = []
project_allowed ((k, v) ∷ input) allowed =
    put_column (lookup k allowed) v (project_allowed input allowed)

-- profileUpdatable
abbrev pub profile_updatable : Dict String
profile_updatable =
    ("fullName", "full_name")
    ∷ ("phone", "phone")
    ∷ ("address", "address")
    ∷ ("cityId", "city_id")
    ∷ ("photoUrl", "photo_url")
    ∷ ("language", "language")
    ∷ ("birthDate", "birth_date")
    ∷ ("emergencyContactName", "emergency_contact_name")
    ∷ ("emergencyContactPhone", "emergency_contact_phone")
    ∷ []

abbrev pub only_admin_updatable : Dict String
only_admin_updatable =
    ("role", "role")
    ∷ ("isVerified", "is_verified")
    ∷ ("isEmailVerified", "is_email_verified")
    ∷ ("isPhoneVerified", "is_phone_verified")
    ∷ ("email", "email")
    ∷ ("username", "username")
    ∷ []

-- The loop of mergeMaps over one map.
unfoldable pub merge_map : Dict String → Dict String → Dict String
unfolding insert
merge_map out [] = out
merge_map out ((k, v) ∷ m) = merge_map (insert k v out) m

-- mergeMaps
unfoldable pub merge_maps : List (Dict String) → Dict String → Dict String
unfolding merge_map
merge_maps [] out = out
merge_maps (m ∷ ms) out = merge_maps ms (merge_map out m)

-- adminUpdatable
unfoldable pub admin_updatable : Dict String
unfolding merge_maps
admin_updatable = merge_maps (profile_updatable ∷ only_admin_updatable ∷ []) []

module _ {ℓ} {V : Type ℓ} (o : Outside) (apply_fields : Dict V → User → User) where
  -- UpdateProfile and AdminUpdate, where `apply_fields` writes columns of a row.
  unfoldable pub update_profile : Uuid → Dict V → Act (Unit {0})
  unfolding project_allowed update_user
  update_profile id input = elim (project_allowed input profile_updatable) [
    | [] ↦ (λ d. (failed nothing_to_update, d))
    | field ∷ fields ↦ update_user o id (apply_fields (field ∷ fields))
  ]

  unfoldable pub admin_update : Uuid → Uuid → Dict V → Act (Unit {0})
  unfolding project_allowed update_user admin_updatable noted
  admin_update actor target input = elim (project_allowed input admin_updatable) [
    | [] ↦ (λ d. (failed nothing_to_update, d))
    | field ∷ fields ↦
        update_user o target (apply_fields (field ∷ fields)) >> noted o "user.updated" target actor
  ]

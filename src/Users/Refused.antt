-- ===== src/Users/Refused.antt =====
-- A method that is refused has changed nothing.
use authentication_service.Prelude.{String, Bool, true, not, ◌||◌, List, some, ◌≡◌, ◌≢◌}
use authentication_service.Auth.Store.{Uuid, is_nil}
use authentication_service.Users.Directory.{
  Directory, Refusal, not_revoked, Outside, failed, Act, demand, expect, find_actor, find_target,
  find_role, get_user, find_role_of,
}
use authentication_service.Authctx.Features.Registry.{is_known_product}
use authentication_service.Users.Permissions.{
  same_id, is_administrator, role_of, extra_row, assert_grantable, assert_held, grant_access,
  disable_access, update_user, role_owner, set_permission, set_product_access,
  revoke_product_access, assign_role,
}
use authentication_service.Users.Atomic.{
  Atomic, Atomic-read, demand-Reads, expect-Reads, get_user-Reads, assert_grantable-Reads,
  assert_held-Reads, grant_access-Atomic, disable_access-Atomic, update_user-Atomic, written-Atomic,
}

module _ (o : Outside) where
  set_permission-Atomic :
      (actor target : Uuid) (product : String) (permissions : List String)
      → Atomic (set_permission o actor target product permissions)
  unfolding set_permission
  set_permission-Atomic actor target product permissions =
      Atomic-read (get_user o find_actor actor) _ (get_user-Reads o find_actor actor) (λ a.
        Atomic-read (get_user o find_target target) _ (get_user-Reads o find_target target) (λ t.
          Atomic-read (demand (same_id a.company_id t.company_id) _) _
            (demand-Reads (λ d. same_id a.company_id t.company_id) _)
            (λ _.
              Atomic-read _ _
                (demand-Reads (λ d. o.fails find_role || not (is_administrator (role_of t d))) _)
                (λ _.
                  Atomic-read (expect _ t.company_id) _ (expect-Reads _ (λ d. t.company_id))
                    (λ company.
                      Atomic-read (assert_grantable o company product permissions) _
                        (assert_grantable-Reads o company product permissions)
                        (λ _.
                          written-Atomic o target actor
                            (grant_access o (extra_row target product permissions true))
                            (grant_access-Atomic o
                              (extra_row target product permissions true))))))))

  set_product_access-Atomic :
      (actor target : Uuid) (product : String) (permissions : List String) (enabled : Bool)
      → Atomic (set_product_access o actor target product permissions enabled)
  unfolding set_product_access
  set_product_access-Atomic actor target product permissions enabled =
      Atomic-read (demand (is_known_product product) _) _
        (demand-Reads (λ d. is_known_product product) _)
        (λ _. Atomic-read (get_user o find_actor actor) _ (get_user-Reads o find_actor actor) (λ a.
          Atomic-read (get_user o find_target target) _ (get_user-Reads o find_target target) (λ t.
            Atomic-read (demand (a.is_platform_staff || same_id a.company_id t.company_id) _) _
              (demand-Reads (λ d. a.is_platform_staff || same_id a.company_id t.company_id) _)
              (λ _.
                Atomic-read (assert_held o t.company_id product permissions) _
                  (assert_held-Reads o t.company_id product permissions)
                  (λ _.
                    written-Atomic o target actor
                      (grant_access o (extra_row target product permissions enabled))
                      (grant_access-Atomic o (extra_row target product permissions enabled)))))))

  revoke_product_access-Atomic :
      (actor target : Uuid) (product : String)
      → Atomic (revoke_product_access o actor target product)
  unfolding revoke_product_access
  revoke_product_access-Atomic actor target product =
      Atomic-read (get_user o find_actor actor) _ (get_user-Reads o find_actor actor) (λ a.
        Atomic-read (get_user o find_target target) _ (get_user-Reads o find_target target) (λ t.
          Atomic-read (demand (a.is_platform_staff || same_id a.company_id t.company_id) _) _
            (demand-Reads (λ d. a.is_platform_staff || same_id a.company_id t.company_id) _)
            (λ _.
              written-Atomic o target actor (disable_access o target product)
                (disable_access-Atomic o target product))))

  assign_role-Atomic : (actor target role : Uuid) → Atomic (assign_role o actor target role)
  unfolding assign_role
  assign_role-Atomic actor target role =
      Atomic-read (get_user o find_actor actor) _ (get_user-Reads o find_actor actor) (λ a.
        Atomic-read (expect _ a.company_id) _ (expect-Reads _ (λ d. a.company_id)) (λ own.
          Atomic-read (get_user o find_target target) _ (get_user-Reads o find_target target) (λ t.
            Atomic-read (demand (a.is_platform_staff || same_id (some own) t.company_id) _) _
              (demand-Reads (λ d. a.is_platform_staff || same_id (some own) t.company_id) _)
              (λ _.
                Atomic-read (demand (not (o.fails find_role)) _) _
                  (demand-Reads (λ d. not (o.fails find_role)) _)
                  (λ _.
                    Atomic-read _ _
                      (demand-Reads
                        (λ d. not (is_nil (find_role_of (role_owner o own t.company_id) role d))) _)
                      (λ _.
                        written-Atomic o target actor
                          (update_user o target (λ u. record u { role_id = some role }))
                          (update_user-Atomic o target
                            (λ u. record u { role_id = some role }))))))))

-- A call of one of the four methods, and what it does.
pub data Request : Type 0 where
  to_set_permission : Uuid → Uuid → String → List String → Request
  to_set_product_access : Uuid → Uuid → String → List String → Bool → Request
  to_revoke_product_access : Uuid → Uuid → String → Request
  to_assign_role : Uuid → Uuid → Uuid → Request

unfoldable pub answer : Outside → Request → Act (Unit {0})
unfolding set_permission set_product_access revoke_product_access assign_role
answer o (to_set_permission actor target product permissions) =
    set_permission o actor target product permissions
answer o (to_set_product_access actor target product permissions enabled) =
    set_product_access o actor target product permissions enabled
answer o (to_revoke_product_access actor target product) =
    revoke_product_access o actor target product
answer o (to_assign_role actor target role) = assign_role o actor target role

-- SetPermission, SetProductAccess, RevokeProductAccess and AssignRole leave the directory as it was when
-- they fail in another way than by not being able to end the sessions.
pub answer-failed :
    (o : Outside) (r : Request) (before : Directory) (e : Refusal)
    → (answer o r before).0 ≡ failed e
    → e ≢ not_revoked
    → (answer o r before).1 ≡ before
unfolding answer
answer-failed o (to_set_permission actor target product permissions) =
    set_permission-Atomic o actor target product permissions
answer-failed o (to_set_product_access actor target product permissions enabled) =
    set_product_access-Atomic o actor target product permissions enabled
answer-failed o (to_revoke_product_access actor target product) =
    revoke_product_access-Atomic o actor target product
answer-failed o (to_assign_role actor target role) = assign_role-Atomic o actor target role

-- ===== src/Users/Isolation.antt =====
-- Who may change the access of whom, and what a change leaves.
use authentication_service.Prelude.{
  String, true, ◌||◌, List, [], ◌∷◌, Option, none, some, eq_iff, nat_eq, nat_eq_iff, ◌≡◌, ◌⊎◌, refl,
  ap, arith, Bool-cases, inl, inr,
}
use authentication_service.Auth.Store.{Uuid, User}
use authentication_service.Auth.Sessions.{find_user, revoke_where}
use authentication_service.Access.Keys.{ExtraGrants}
use authentication_service.Access.Build.{ExtraRow, extras_of}
use authentication_service.Users.Directory.{
  Directory, Outside, done, Act, find_actor, find_target, ◌>>=◌,
}
use authentication_service.Users.Permissions.{
  same_id, disable, disable_access, revoke_product_access,
}
use authentication_service.Users.Steps.{after_demand, after_get_user, closing-done}

-- The actor is staff of the platform, or the two accounts are of one company.
abbrev pub MayAdminister : User → User → Type 0
MayAdminister a t =
    (a.is_platform_staff ≡ true)
    ⊎ ((company : Uuid) × (a.company_id ≡ some company) × (t.company_id ≡ some company))

same_id_iff :
    (a b : Option Uuid)
    → same_id a b ≡ true
    → (company : Uuid) × (a ≡ some company) × (b ≡ some company)
same_id_iff none b h = absurd (cc)
same_id_iff (some x) none h = absurd (cc)
same_id_iff (some x) (some y) h = (y, ap some ((nat_eq_iff x y).0 h), refl)

pub may_administer :
    (a t : User)
    → (a.is_platform_staff || same_id a.company_id t.company_id) ≡ true
    → MayAdminister a t
may_administer a t h = elim (Bool-cases a.is_platform_staff) [
  | inl staff ↦ inl staff
  | inr other ↦ inr (same_id_iff a.company_id t.company_id (ground (arith, other)))
]

extras_of-disable :
    (id : Uuid) (product key : String) (rows : List ExtraRow)
    → ¬ ExtraGrants product key (extras_of id (disable id product rows))
unfolding extras_of disable
extras_of-disable id product key [] h = h
extras_of-disable id product key (row ∷ rows) h =
    ground (arith, h, eq_iff row.extra.product product, extras_of-disable id product key rows)

module _ (o : Outside) where
  disable_access-done :
      (target : Uuid) (product : String) (k : Unit {0} → Act (Unit {0})) (before after : Directory)
      → (disable_access o target product >>= k) before ≡ (done tt, after)
      → k tt (record before { extras = disable target product before.extras }) ≡ (done tt, after)
  unfolding disable_access
  disable_access-done target product k before after h = ground (arith, h)

  -- When RevokeProductAccess is done, the actor was staff or of the target's company, no extra grants
  -- the target anything in the product, and every session of the target has ended.
  pub revoke_product_access-ExtraGrants :
      (actor target : Uuid) (product : String) (before after : Directory)
      → revoke_product_access o actor target product before ≡ (done tt, after)
      → (a t : User) × (find_user actor before.store ≡ some a)
        × (find_user target before.store ≡ some t)
        × MayAdminister a t
        × ((key : String) → ¬ ExtraGrants product key (extras_of target after.extras))
        × (after.store.sessions
            ≡ revoke_where o.now (λ x. nat_eq x.user_id target) before.store.sessions)
  unfolding revoke_product_access
  revoke_product_access-ExtraGrants actor target product before after h =
      let (a, actor_is, h) = after_get_user o find_actor actor _ tt before after h in
      let (t, target_is, h) = after_get_user o find_target target _ tt before after h in
      let (may, h) =
        after_demand (a.is_platform_staff || same_id a.company_id t.company_id) _ _ tt before after
          h in
      let h = disable_access-done target product _ before after h in
      let (sessions, _, _, _, extras, _, _) =
        closing-done o target actor tt
          (record before { extras = disable target product before.extras }) after h in
      (
        a,
        t,
        actor_is,
        target_is,
        may_administer a t may,
        λ key. rw extras (extras_of-disable target product key before.extras),
        sessions,
      )

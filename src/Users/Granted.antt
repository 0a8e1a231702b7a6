-- ===== src/Users/Granted.antt =====
-- What SetPermission has checked and written, and what the target may do from then on.
use authentication_service.Prelude.{
  String, true, not, ◌||◌, List, [], ◌∷◌, Option, none, some, eq_iff, nat_eq_iff, contains_iff, ◌≡◌,
  ◌⊎◌, arith, Elem, Option-cases, inl, inr, All,
}
use authentication_service.Authctx.Product.{Catalogs, feature_for}
use authentication_service.Auth.Store.{Uuid, User}
use authentication_service.Auth.Sessions.{find_user}
use authentication_service.Users.Directory.{
  Directory, Outside, done, find_actor, find_target, find_role,
}
use authentication_service.Users.Permissions.{
  same_id, is_administrator, role_of, refused_key, upsert, extra_row, set_permission,
}
use authentication_service.Users.Steps.{
  after_demand, after_expect, after_get_user, after_assert_grantable, after_grant_access,
  closing-done, Closed, held_in,
}

-- The key is of the product's catalogue, and what gates it is held.
abbrev pub IsGrantable : Catalogs → List String → String → String → Type 0
IsGrantable catalogs held product key =
    (feature : String) × (feature_for catalogs product key ≡ some feature)
    × ((feature ≡ "") ⊎ Elem feature held)

refused_key-none :
    (catalogs : Catalogs) (held : List String) (product : String) (keys : List String)
    → refused_key catalogs held product keys ≡ none
    → All (IsGrantable catalogs held product) keys
unfolding refused_key
refused_key-none catalogs held product [] h = tt
refused_key-none catalogs held product (k ∷ keys) h =
    elim (Option-cases (feature_for catalogs product k)) [
      | inl unknown ↦ absurd (ground arith)
      | inr (feature, known) ↦ (
        (feature, known, ground (arith, eq_iff feature "", contains_iff held feature)),
        refused_key-none catalogs held product keys (ground arith),
      )
    ]

same_id-some :
    (a b : Option Uuid) (company : Uuid) → same_id a b ≡ true → b ≡ some company → a ≡ some company
same_id-some none b company h e = absurd (cc)
same_id-some (some x) none company h e = absurd (cc)
same_id-some (some x) (some y) company h e = ground (arith, nat_eq_iff x y)

module _ (o : Outside) (actor target : Uuid) (product : String) (permissions : List String)
    (before after : Directory) where
  -- The two accounts are of one company, the target's role leaves something to grant, and the extras
  -- and sessions have been written.
  pub record Granted (a t : User) (company : Uuid) : Type 0 where
    pub actor_is : find_user actor before.store ≡ some a
    pub target_is : find_user target before.store ≡ some t
    pub actor_in : a.company_id ≡ some company
    pub target_in : t.company_id ≡ some company
    pub is_limited : (o.fails find_role || not (is_administrator (role_of t before))) ≡ true
    pub grantable :
        All (IsGrantable o.catalogs (held_in o company product before) product) permissions
    pub closed :
        Closed o target
          (record before {
            extras = upsert (extra_row target product permissions true) before.extras;
          })
          after

  -- When SetPermission is done, the actor and the target are of one company, the target's role does not
  -- grant all, as far as it could be read, each key is of the product's catalogue and its feature held
  -- by the company, the keys are the target's extra in the product, every session of the target has
  -- ended, and the users, roles, modules and settings are as they were.
  pub set_permission-Granted :
      set_permission o actor target product permissions before ≡ (done tt, after)
      → (a t : User) × (company : Uuid) × Granted a t company
  unfolding set_permission
  set_permission-Granted h =
      let (a, actor_is, h) = after_get_user o find_actor actor _ tt before after h in
      let (t, target_is, h) = after_get_user o find_target target _ tt before after h in
      let (together, h) = after_demand (same_id a.company_id t.company_id) _ _ tt before after h in
      let (is_limited, h) =
        after_demand (o.fails find_role || not (is_administrator (role_of t before))) _ _ tt before
          after h in
      let (company, target_in, h) = after_expect _ t.company_id _ tt before after h in
      let (free, h) = after_assert_grantable o company product permissions _ tt before after h in
      let h =
        after_grant_access o (extra_row target product permissions true) _ tt before after h in
      let closed =
        closing-done o target actor tt
          (record before {
            extras = upsert (extra_row target product permissions true) before.extras;
          })
          after h in
      (
        a,
        t,
        company,
        record {
          actor_is = actor_is;
          target_is = target_is;
          actor_in = same_id-some a.company_id t.company_id company together target_in;
          target_in = target_in;
          is_limited = is_limited;
          grantable =
              refused_key-none o.catalogs (held_in o company product before) product permissions
                free;
          closed = closed;
        },
      )

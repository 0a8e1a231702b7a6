-- ===== src/Users/Steps.antt =====
-- What a step of a method has found and written once the method is done.
use authentication_service.Prelude.{
  String, Bool, true, false, not, List, Option, none, some, ◌≡◌, refl, ◌∙◌, arith, ◌++◌, [], ◌∷◌,
  nat_eq,
}
use authentication_service.Auth.Store.{Uuid, User}
use authentication_service.Revocation.Held.{user}
use authentication_service.Auth.Sessions.{find_user, revoke_where, revoke_all}
use authentication_service.Access.Build.{ExtraRow, active_for_company}
use authentication_service.Users.Directory.{
  Directory, access_tables, Refusal, Call, entitlement, write, Outside, Answer, done, failed, Act,
  go_on, ◌>>=◌, demand, expect, get_user, end_sessions_of, noted, held_features,
}
use authentication_service.Users.Permissions.{
  or_refuse, refused_key, assert_grantable, grant_access, upsert, closing,
}

module _ {ℓ κ} {A : Type ℓ} {B : Type κ} where
  go_on-done :
      (r : Answer A × Directory) (f : A → Act B) (b : B) (after : Directory)
      → go_on r.0 f r.1 ≡ (done b, after)
      → (a : A) × (between : Directory) × (r ≡ (done a, between)) × (f a between ≡ (done b, after))
  go_on-done (done a, between) f b after h = (a, between, refl, h)
  go_on-done (failed e, between) f b after h = absurd (cc)

  -- A chain that is done has done its first step and then the rest.
  pub bind-done :
      (m : Act A) (f : A → Act B) (b : B) (before after : Directory)
      → (m >>= f) before ≡ (done b, after)
      → (a : A) × (between : Directory) × (m before ≡ (done a, between))
        × (f a between ≡ (done b, after))
  bind-done m f b before after h = go_on-done (m before) f b after h

  -- The same for a step that only reads.
  pub bind-read {μ} :
      (P : A → Type μ) (m : Act A) (f : A → Act B) (b : B) (before after : Directory)
      → ((a : A) (d : Directory) → m before ≡ (done a, d) → P a × (before ≡ d))
      → (m >>= f) before ≡ (done b, after)
      → (a : A) × P a × (f a before ≡ (done b, after))
  bind-read P m f b before after reads h =
      let (a, d, first, rest) = bind-done m f b before after h in
      let (read, same) = reads a d first in (a, read, rw same rest)

pub demand-done :
    (c : Bool) (e : Refusal) (u : Unit {0}) (before after : Directory)
    → demand c e before ≡ (done u, after)
    → (c ≡ true) × (before ≡ after)
demand-done true e u before after h = ground arith
demand-done false e u before after h = absurd (cc)

pub expect-done {ℓ} :
    {A : Type ℓ} (e : Refusal) (x : Option A) (a : A) (before after : Directory)
    → expect e x before ≡ (done a, after)
    → (x ≡ some a) × (before ≡ after)
expect-done e none a before after h = absurd (cc)
expect-done e (some b) a before after h = ground arith

-- A condition, and a value, that the rest of a chain has gone past.
pub after_demand {ℓ} :
    {B : Type ℓ} (c : Bool) (e : Refusal) (k : Unit {0} → Act B) (b : B) (before after : Directory)
    → (demand c e >>= k) before ≡ (done b, after)
    → (c ≡ true) × (k tt before ≡ (done b, after))
after_demand true e k b before after h = (refl, h)
after_demand false e k b before after h = absurd (cc)

pub after_expect {ℓ κ} :
    {A : Type ℓ} {B : Type κ} (e : Refusal) (x : Option A) (k : A → Act B) (b : B)
    (before after : Directory)
    → (expect e x >>= k) before ≡ (done b, after)
    → (a : A) × (x ≡ some a) × (k a before ≡ (done b, after))
after_expect e none k b before after h = absurd (cc)
after_expect e (some a) k b before after h = (a, refl, h)

module _ (o : Outside) where
  pub get_user-done :
      (call : Call) (id : Uuid) (u : User) (before after : Directory)
      → get_user o call id before ≡ (done u, after)
      → (find_user id before.store ≡ some u) × (before ≡ after)
  unfolding get_user
  get_user-done call id u before after h =
      let (_, d, first, rest) = bind-done (demand (not (o.fails call)) _) _ u before after h in
      let (_, same) = demand-done (not (o.fails call)) _ _ before d first in
      let (found, again) = expect-done _ (find_user id d.store) u d after rest in
      (rw same found, same ∙ again)

  pub after_get_user {ℓ} :
      {B : Type ℓ} (call : Call) (id : Uuid) (k : User → Act B) (b : B) (before after : Directory)
      → (get_user o call id >>= k) before ≡ (done b, after)
      → (u : User) × (find_user id before.store ≡ some u) × (k u before ≡ (done b, after))
  after_get_user call id k b before after =
      bind-read (λ u. find_user id before.store ≡ some u) (get_user o call id) k b before after
        (λ u d. get_user-done call id u before d)

  -- The features that a company holds in a product, on the administration screen.
  abbrev pub held_in : Uuid → String → Directory → List String
  held_in company product d =
      active_for_company o.sort o.sellable o.today (access_tables d) company product

  held_features-done :
      (company : Uuid) (product : String) (held : List String) (before after : Directory)
      → held_features o company product before ≡ (done held, after)
      → (held_in company product before ≡ held) × (before ≡ after)
  unfolding held_features
  held_features-done company product held before after h =
      let (_, d, first, rest) =
        bind-done (demand (not (o.fails entitlement)) _) _ held before after h in
      let (_, same) = demand-done (not (o.fails entitlement)) _ _ before d first in
      rw same (ground (arith, rest))

  or_refuse-done :
      (r : Option Refusal) (u : Unit {0}) (before after : Directory)
      → or_refuse r before ≡ (done u, after)
      → (r ≡ none) × (before ≡ after)
  or_refuse-done none u before after h = ground arith
  or_refuse-done (some e) u before after h = absurd (cc)

  pub assert_grantable-done :
      (company : Uuid) (product : String) (keys : List String) (u : Unit {0})
      (before after : Directory)
      → assert_grantable o company product keys before ≡ (done u, after)
      → (refused_key o.catalogs (held_in company product before) product keys ≡ none)
        × (before ≡ after)
  unfolding assert_grantable
  assert_grantable-done company product keys u before after h =
      let (held, d, first, rest) = bind-done (held_features o company product) _ u before after h in
      let (is, same) = held_features-done company product held before d first in
      let (free, again) =
        or_refuse-done (refused_key o.catalogs held product keys) u d after rest in
      (rw is free, same ∙ again)

  pub grant_access-done :
      (row : ExtraRow) (u : Unit {0}) (before after : Directory)
      → grant_access o row before ≡ (done u, after)
      → after ≡ record before { extras = upsert row before.extras }
  unfolding grant_access
  grant_access-done row u before after h =
      let (_, d, first, rest) = bind-done (demand (not (o.fails write)) _) _ u before after h in
      let (_, same) = demand-done (not (o.fails write)) _ _ before d first in
      rw same (ground (arith, rest))

  -- The sessions of the account have ended, and neither the people nor the grants have changed.
  abbrev pub Closed : Uuid → Directory → Directory → Type 0
  Closed target before after =
      (after.store.sessions
        ≡ revoke_where o.now (λ x. nat_eq x.user_id target) before.store.sessions)
      × (after.store.announced ≡ (
          before.store.announced
          ++ record { kind = user; id = o.uuid_text target; at = o.now } ∷ []))
      × (after.store.users ≡ before.store.users)
      × (after.roles ≡ before.roles)
      × (after.extras ≡ before.extras)
      × (after.modules ≡ before.modules)
      × (after.settings ≡ before.settings)

  pub closing-done :
      (target actor : Uuid) (u : Unit {0}) (before after : Directory)
      → closing o target actor before ≡ (done u, after)
      → Closed target before after
  unfolding closing end_sessions_of noted revoke_all
  closing-done target actor u before after h = ground (arith, h)

  pub after_assert_grantable {ℓ} :
      {B : Type ℓ} (company : Uuid) (product : String) (keys : List String) (k : Unit {0} → Act B)
      (b : B) (before after : Directory)
      → (assert_grantable o company product keys >>= k) before ≡ (done b, after)
      → (refused_key o.catalogs (held_in company product before) product keys ≡ none)
        × (k tt before ≡ (done b, after))
  after_assert_grantable company product keys k b before after h =
      let (_, free, rest) =
        bind-read (λ u. refused_key o.catalogs (held_in company product before) product keys ≡ none)
          (assert_grantable o company product keys) k b before after
          (λ u d. assert_grantable-done company product keys u before d) h in
      (free, rest)

  pub after_grant_access {ℓ} :
      {B : Type ℓ} (row : ExtraRow) (k : Unit {0} → Act B) (b : B) (before after : Directory)
      → (grant_access o row >>= k) before ≡ (done b, after)
      → k tt (record before { extras = upsert row before.extras }) ≡ (done b, after)
  after_grant_access row k b before after h =
      let (u, d, first, rest) = bind-done (grant_access o row) k b before after h in
      rw (← grant_access-done row u before d first) rest

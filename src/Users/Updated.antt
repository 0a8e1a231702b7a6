-- ===== src/Users/Updated.antt =====
-- What UpdateFields leaves of a user's row.
use authentication_service.Prelude.{
  List, [], ◌∷◌, some, nat_eq, nat_eq_iff, ◌≡◌, ap, arith, Bool-cases, inl, inr,
}
use authentication_service.Auth.Store.{Uuid, User, Store}
use authentication_service.Auth.Sessions.{first, find_user}
use authentication_service.Users.Directory.{Directory, Outside, done, Act, ◌>>=◌}
use authentication_service.Users.Permissions.{update_where, update_user}

module _ (o : Outside) where
  pub update_user-done :
      (target : Uuid) (f : User → User) (k : Unit {0} → Act (Unit {0})) (before after : Directory)
      → (update_user o target f >>= k) before ≡ (done tt, after)
      → k tt (record before {
        store = record before.store { users = update_where target f before.store.users };
      })
        ≡ (done tt, after)
  unfolding update_user
  update_user-done target f k before after h = ground (arith, h)

first-update_where :
    (id : Uuid) (f : User → User) (us : List User) (u : User)
    → (f u).id ≡ u.id
    → first (λ v. nat_eq v.id id) us ≡ some u
    → first (λ v. nat_eq v.id id) (update_where id f us) ≡ some (f u)
unfolding first update_where
first-update_where id f [] u keeps h = absurd (cc)
first-update_where id f (v ∷ us) u keeps h = elim (Bool-cases (nat_eq v.id id)) [
  | inl here ↦
      let same : v ≡ u = ground arith in
      ground (arith, here, same, keeps, nat_eq_iff v.id id, nat_eq_iff (f v).id id, ap f same)
  | inr other ↦ ground (arith, other, first-update_where id f us u keeps)
]

-- The row that is found once it has been updated.
pub find_user-update_where :
    (id : Uuid) (f : User → User) (s : Store) (u : User)
    → (f u).id ≡ u.id
    → find_user id s ≡ some u
    → find_user id (record s { users = update_where id f s.users }) ≡ some (f u)
unfolding find_user
find_user-update_where id f s u = first-update_where id f s.users u

-- A look-up reads the users only.
pub find_user-users :
    (id : Uuid) (s r : Store) → s.users ≡ r.users → find_user id s ≡ find_user id r
unfolding find_user
find_user-users id s r same = ap (first (λ u. nat_eq u.id id)) same

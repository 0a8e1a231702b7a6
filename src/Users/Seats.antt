-- ===== src/Users/Seats.antt =====
-- A registration keeps every company within its seats.
use authentication_service.Prelude.{
  ◌+◌, ◌≤◌, ◌<◌, Bool, true, false, not, ◌&&◌, ◌||◌, List, [], ◌∷◌, ◌++◌, Option, none, some,
  nat_eq_iff, if◌then◌else◌, ◌≡◌, ◌⊎◌, refl, ap, arith, Option-cases, inl, inr,
}
use authentication_service.Auth.Store.{Uuid, User, is_nil}
use authentication_service.Users.Directory.{Directory}
use authentication_service.Users.Enrolment.{
  is_empty, is_new_tenant, company_for, tenants_with, enrol, register,
}
use authentication_service.Users.Registration.{
  RegisterInput, Tenant, Registry, Fresh, Outcome, accepted, rejected, Rejection, unless_rejected,
  ◌>>=◌, creating_company, creating_user, granting, works_for, count_active_users, max_users_of,
  check_seats, choose_role, give_role, new_user, new_tenant_row, tenant_code,
}

-- Each company with a limit has no more accounts than seats.
abbrev pub WithinSeats : Registry → Type 0
WithinSeats r =
    (company : Uuid)
    → (max_users_of company r.tenants ≡ 0)
      ⊎ (count_active_users company r.directory.store.users ≤ max_users_of company r.tenants)

max_users_of-append :
    (company : Uuid) (ts : List Tenant) (t : Tenant)
    → t.max_users ≡ 0
    → max_users_of company (ts ++ t ∷ []) ≡ max_users_of company ts
unfolding max_users_of
max_users_of-append company [] t free = ground (arith, free)
max_users_of-append company (s ∷ ts) t free = ground (arith, max_users_of-append company ts t free)

pub count_active_users-append :
    (company : Uuid) (us : List User) (u : User)
    → count_active_users company (us ++ u ∷ [])
      ≡ count_active_users company us + (if works_for company u.company_id then 1 else 0)
unfolding count_active_users
count_active_users-append company [] u = ground arith
count_active_users-append company (v ∷ us) u =
    ground (arith, count_active_users-append company us u)

after_unless {ℓ} :
    {A : Type ℓ} (c : Bool) (e : Rejection) (k : Unit {0} → Outcome A) (a : A)
    → (unless_rejected c e >>= k) ≡ accepted a
    → (c ≡ false) × (k tt ≡ accepted a)
after_unless true e k a h = absurd (cc)
after_unless false e k a h = (refl, h)

after_accepted {ℓ κ} :
    {A : Type ℓ} {B : Type κ} (m : Outcome A) (k : A → Outcome B) (b : B)
    → (m >>= k) ≡ accepted b
    → (a : A) × (m ≡ accepted a) × (k a ≡ accepted b)
after_accepted (accepted a) k b h = (a, refl, h)
after_accepted (rejected e) k b h = absurd (cc)

give_role-company_id :
    (f : Fresh) (nt : Bool) (role company : Option Uuid) (d : Directory) (u : User)
    (given : User × Directory)
    → give_role f nt role company d u ≡ accepted given
    → given.0.company_id ≡ u.company_id
unfolding give_role
give_role-company_id f nt role none d u given h = ground (arith, h)
give_role-company_id f nt role (some company) d u given h =
    let (chosen, first, h) = after_accepted (choose_role f nt role company d) _ given h in
    ground (arith, h)

-- What the transaction leaves, once it is done.
pub enrol-left :
    (f : Fresh) (input : RegisterInput) (r after : Registry) (u : User)
    → enrol f input r ≡ accepted (u, after)
    → (u.company_id ≡ company_for f input (is_new_tenant input))
      × (check_seats f (is_new_tenant input) (company_for f input (is_new_tenant input)) r
          ≡ accepted tt)
      × (after.directory.store.users ≡ (r.directory.store.users ++ u ∷ []))
      × (after.tenants ≡ tenants_with f input (is_new_tenant input) r.tenants)
      × (given : User × Directory) × (give_role f
            (is_new_tenant input)
            input.role_id
            (company_for f input (is_new_tenant input))
            r.directory
            (new_user f input (company_for f input (is_new_tenant input)))
          ≡ accepted given)
      × (u ≡ given.0)
      × (after.directory.roles ≡ given.1.roles)
unfolding enrol new_user
enrol-left f input r after u h =
    let nt = is_new_tenant input in
    let company = company_for f input nt in
    let (_, h) =
      after_unless (nt && (f.fails creating_company || is_nil (tenant_code f input))) _ _ (u, after)
        h in
    let (_, seats, h) = after_accepted (check_seats f nt company r) _ (u, after) h in
    let (_, h) = after_unless (f.fails creating_user) _ _ (u, after) h in
    let (_, h) = after_unless (nt && f.fails granting) _ _ (u, after) h in
    let (given, gives, h) =
      after_accepted (give_role f nt input.role_id company r.directory (new_user f input company)) _
        (u, after) h in
    let (_, h) =
      after_unless (not (is_empty input.permissions) && f.fails granting) _ _ (u, after) h in
    let same =
      give_role-company_id f nt input.role_id company r.directory (new_user f input company) given
        gives in
    (
      ground (arith, h, same),
      seats,
      ground (arith, h),
      ground (arith, h),
      given,
      gives,
      ground (arith, h),
      ground (arith, h),
    )

pub register-enrol :
    (f : Fresh) (input : RegisterInput) (r after : Registry) (u : User)
    → register f input r ≡ accepted (u, after)
    → enrol f input r ≡ accepted (u, after)
unfolding register
register-enrol f input r after u h = ground (arith, h)

check_seats-left :
    (f : Fresh) (company : Uuid) (r : Registry)
    → check_seats f false (some company) r ≡ accepted tt
    → (max_users_of company r.tenants ≡ 0)
      ⊎ (count_active_users company r.directory.store.users < max_users_of company r.tenants)
unfolding check_seats
check_seats-left f company r h = ground (arith, h)

-- The account that has joined leaves its company with a seat, or is not of the company asked for.
joined-WithinSeats :
    (f : Fresh) (input : RegisterInput) (nt : Bool) (r : Registry) (company : Uuid)
    → check_seats f nt (company_for f input nt) r ≡ accepted tt
    → max_users_of f.company_id r.tenants ≡ 0
    → (max_users_of company r.tenants ≡ 0)
      ⊎ (count_active_users company r.directory.store.users ≤ max_users_of company r.tenants)
    → (max_users_of company r.tenants ≡ 0)
      ⊎ (count_active_users company r.directory.store.users
            + (if works_for company (company_for f input nt) then 1 else 0)
          ≤ max_users_of company r.tenants)
joined-WithinSeats f input true r company seats fresh within = ground (
  arith,
  fresh,
  within,
  nat_eq_iff f.company_id company,
  ap (λ c. max_users_of c r.tenants) {x = f.company_id} {y = company},
)
joined-WithinSeats f input false r company seats fresh within =
    elim (Option-cases input.company_id) [
      | inl none_given ↦ rw none_given (ground (arith, within))
      | inr (joined, is) ↦
          let room = check_seats-left f joined r (rw is at seats) in
          rw is (
            ground (
              arith,
              within,
              room,
              nat_eq_iff joined company,
              ap (λ c. max_users_of c r.tenants) {x = joined} {y = company},
              ap (λ c. count_active_users c r.directory.store.users) {x = joined} {y = company},
            ))
    ]

tenants_with-max_users :
    (f : Fresh) (input : RegisterInput) (nt : Bool) (company : Uuid) (ts : List Tenant)
    → max_users_of company (tenants_with f input nt ts) ≡ max_users_of company ts
unfolding new_tenant_row
tenants_with-max_users f input true company ts =
    max_users_of-append company ts (new_tenant_row f input) refl
tenants_with-max_users f input false company ts = refl

-- A registration keeps every company within its seats: where the id for a new company has no row with a
-- limit, and each company with a limit has no more accounts than seats, so it is afterwards.
pub register-WithinSeats :
    (f : Fresh) (input : RegisterInput) (r after : Registry) (u : User)
    → register f input r ≡ accepted (u, after)
    → max_users_of f.company_id r.tenants ≡ 0
    → WithinSeats r
    → WithinSeats after
register-WithinSeats f input r after u h fresh within company =
    let nt = is_new_tenant input in
    let (joined, seats, users, tenants, _, _, _, _) =
      enrol-left f input r after u (register-enrol f input r after u h) in
    let room = joined-WithinSeats f input nt r company seats fresh (within company) in
    rw
      (
        users,
        tenants,
        tenants_with-max_users f input nt company r.tenants,
        count_active_users-append company r.directory.store.users u,
        joined,
      )
      room

-- ===== src/Merge/Tenants.antt =====
-- What a merge does to the people, the links and the pointer of the two companies.
use authentication_service.Prelude.{
  ℕ, false, ◌&&◌, List, [], ◌∷◌, none, some, nat_eq, nat_eq_iff, any, map, Pairs, if◌then◌else◌,
  ◌≡◌, ◌≢◌, refl, arith, Bool-cases, Option-cases, inl, inr, ap,
}
use authentication_service.Auth.Sessions.{first}
use authentication_service.Merge.Companies.{
  CompanyRow, Account, MergeTables, MergeResult, merged, find_row, is_company, has_members,
  move_users, mark_row, carry_row, fold_company, merge_rows, merge, resolve,
}

pub find_row-id :
    (id : ℕ) (cs : List CompanyRow) (c : CompanyRow) → find_row id cs ≡ some c → c.id ≡ id
unfolding find_row first
find_row-id id [] c h = absurd (cc)
find_row-id id (d ∷ cs) c h = elim (Bool-cases (nat_eq d.id id)) [
  | inl here ↦ let is : d ≡ c = ground arith in rw (← is) ((nat_eq_iff d.id id).0 here)
  | inr other ↦ find_row-id id cs c (ground arith)
]

merge_rows-found :
    (s d : CompanyRow) (t after : MergeTables) (r : MergeResult)
    → merge_rows s d t ≡ merged r after
    → (s.merged_into ≡ none)
      × (d.merged_into ≡ none)
      × ((has_members d.id t.users && has_members s.id t.users) ≡ false)
      × ((fold_company s.id d.id d t).1 ≡ after)
unfolding merge_rows
merge_rows-found s d t after r h = ground arith

-- What a merge that succeeds has found, and the tables that it leaves.
pub merge-found :
    (survivor duplicate : ℕ) (t after : MergeTables) (r : MergeResult)
    → merge survivor duplicate t ≡ merged r after
    → (s d : CompanyRow) × (survivor ≢ duplicate)
      × (find_row survivor t.companies ≡ some s)
      × (find_row duplicate t.companies ≡ some d)
      × (s.merged_into ≡ none)
      × (d.merged_into ≡ none)
      × ((has_members duplicate t.users && has_members survivor t.users) ≡ false)
      × ((fold_company survivor duplicate d t).1 ≡ after)
unfolding merge
merge-found survivor duplicate t after r h = elim (Option-cases (find_row survivor t.companies)) [
  | inl missing ↦ absurd (ground arith)
  | inr (s, found_s) ↦ elim (Option-cases (find_row duplicate t.companies)) [
    | inl missing ↦ absurd (ground arith)
    | inr (d, found_d) ↦
        let is_s = find_row-id survivor t.companies s found_s in
        let is_d = find_row-id duplicate t.companies d found_d in
        let apart : nat_eq survivor duplicate ≡ false = ground arith in
        let (free_s, free_d, empty, left) = merge_rows-found s d t after r (ground arith) in
        (
          s,
          d,
          ground (arith, nat_eq_iff survivor duplicate),
          found_s,
          found_d,
          free_s,
          free_d,
          rw (is_d, is_s) at empty,
          rw (is_d, is_s) at left,
        )
  ]
]

-- A user after the merge: in the survivor's company where it was in the duplicate's, and as it was
-- otherwise.
abbrev pub Moved : ℕ → ℕ → Account → Account → Type 0
Moved survivor duplicate u v =
    (v.id ≡ u.id)
    × (v.is_deleted ≡ u.is_deleted)
    × (v.company_id ≡ (if is_company duplicate u.company_id then some survivor else u.company_id))

moved_lem :
    (survivor duplicate : ℕ) (u : Account)
    → Moved survivor duplicate u
        (if is_company duplicate u.company_id then record u { company_id = some survivor } else u)
moved_lem survivor duplicate u = ground arith

move_users-Moved :
    (survivor duplicate : ℕ) (us : List Account)
    → Pairs (Moved survivor duplicate) us (move_users survivor duplicate us)
unfolding move_users
move_users-Moved survivor duplicate [] = tt
move_users-Moved survivor duplicate (u ∷ us) =
    (moved_lem survivor duplicate u, move_users-Moved survivor duplicate us)

move_users-empty :
    (survivor duplicate : ℕ) (us : List Account)
    → survivor ≢ duplicate
    → any (λ u. is_company duplicate u.company_id) (move_users survivor duplicate us) ≡ false
unfolding move_users
move_users-empty survivor duplicate [] apart = refl
move_users-empty survivor duplicate (u ∷ us) apart =
    ground (arith, move_users-empty survivor duplicate us apart, nat_eq_iff duplicate survivor)

pub carried-id :
    (survivor duplicate : ℕ) (row c : CompanyRow)
    → (carry_row survivor row (mark_row survivor duplicate c)).id ≡ c.id
unfolding carry_row mark_row
carried-id survivor duplicate row c = ground arith

pub carried-merged_into :
    (survivor duplicate : ℕ) (row c : CompanyRow)
    → (carry_row survivor row (mark_row survivor duplicate c)).merged_into
      ≡ (if nat_eq c.id duplicate then some survivor else c.merged_into)
unfolding carry_row mark_row
carried-merged_into survivor duplicate row c = ground arith

find_row-map :
    (f : CompanyRow → CompanyRow) (id : ℕ) (cs : List CompanyRow) (c : CompanyRow)
    → ((x : CompanyRow) → (f x).id ≡ x.id)
    → find_row id cs ≡ some c
    → find_row id (map f cs) ≡ some (f c)
unfolding find_row first
find_row-map f id [] c keeps h = absurd (cc)
find_row-map f id (d ∷ cs) c keeps h = ground (arith, keeps d, find_row-map f id cs c keeps)

-- The row of a company after the merge.
pub fold_company-find_row :
    (survivor duplicate id : ℕ) (row c : CompanyRow) (t : MergeTables)
    → find_row id t.companies ≡ some c
    → find_row id (fold_company survivor duplicate row t).1.companies
      ≡ some (carry_row survivor row (mark_row survivor duplicate c))
unfolding fold_company
fold_company-find_row survivor duplicate id row c t h =
    find_row-map (λ c. carry_row survivor row (mark_row survivor duplicate c)) id t.companies c
      (λ x. carried-id survivor duplicate row x) h

find_row-map-none :
    (f : CompanyRow → CompanyRow) (id : ℕ) (cs : List CompanyRow)
    → ((x : CompanyRow) → (f x).id ≡ x.id)
    → find_row id cs ≡ none
    → find_row id (map f cs) ≡ none
unfolding find_row first
find_row-map-none f id [] keeps h = refl
find_row-map-none f id (d ∷ cs) keeps h = ground (arith, keeps d, find_row-map-none f id cs keeps)

fold_company-missing :
    (survivor duplicate id : ℕ) (row : CompanyRow) (t : MergeTables)
    → find_row id t.companies ≡ none
    → find_row id (fold_company survivor duplicate row t).1.companies ≡ none
unfolding fold_company
fold_company-missing survivor duplicate id row t h =
    find_row-map-none (λ c. carry_row survivor row (mark_row survivor duplicate c)) id t.companies
      (λ x. carried-id survivor duplicate row x) h

fold_company-resolve :
    (survivor duplicate id : ℕ) (row d : CompanyRow) (t : MergeTables)
    → find_row duplicate t.companies ≡ some d
    → resolve id (fold_company survivor duplicate row t).1
      ≡ (if nat_eq id duplicate then survivor else resolve id t)
unfolding resolve
fold_company-resolve survivor duplicate id row d t there =
    elim (Option-cases (find_row id t.companies)) [
      | inl missing ↦ ground (
        arith,
        missing,
        there,
        fold_company-missing survivor duplicate id row t missing,
        nat_eq_iff id duplicate,
        ap (λ k. find_row k t.companies) {x = id} {y = duplicate},
      )
      | inr (c, h) ↦ ground (
        arith,
        h,
        find_row-id id t.companies c h,
        fold_company-find_row survivor duplicate id row c t h,
        carried-merged_into survivor duplicate row c,
      )
    ]

resolve-free :
    (id : ℕ) (t : MergeTables) (c : CompanyRow)
    → find_row id t.companies ≡ some c
    → c.merged_into ≡ none
    → resolve id t ≡ id
unfolding resolve
resolve-free id t c found free = ground (arith, found, free)

-- After a merge, the duplicate resolves to the survivor and every other id as before, the survivor to
-- itself; nobody is left in the duplicate, every user of it is in the survivor, every other user is
-- where they were; and the two companies did not both have users.
pub merge-tenants :
    (survivor duplicate : ℕ) (t after : MergeTables) (r : MergeResult)
    → merge survivor duplicate t ≡ merged r after
    → ((id : ℕ) → resolve id after ≡ (if nat_eq id duplicate then survivor else resolve id t))
      × (resolve survivor after ≡ survivor)
      × Pairs (Moved survivor duplicate) t.users after.users
      × (any (λ u. is_company duplicate u.company_id) after.users ≡ false)
      × ((has_members duplicate t.users && has_members survivor t.users) ≡ false)
unfolding fold_company
merge-tenants survivor duplicate t after r h =
    let (s, d, apart, found_s, found_d, free_s, free_d, empty, left) =
      merge-found survivor duplicate t after r h in
    let at = λ (id : ℕ). fold_company-resolve survivor duplicate id d d t found_d in
    (
      λ id. rw (← left) (at id),
      ground (
        arith,
        at survivor,
        left,
        nat_eq_iff survivor duplicate,
        resolve-free survivor t s found_s free_s,
      ),
      rw (← left) (move_users-Moved survivor duplicate t.users),
      rw (← left) (move_users-empty survivor duplicate t.users apart),
      empty,
    )

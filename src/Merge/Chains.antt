-- ===== src/Merge/Chains.antt =====
-- A survivor that is merged in its turn.
use authentication_service.Prelude.{
  ℕ, List, [], ◌∷◌, false, none, some, ◌≡◌, ◌≢◌, refl, ◌∙◌, arith, nat_eq_iff,
}
use authentication_service.Merge.Companies.{
  CompanyRow, Account, MergeTables, MergeResult, merged, find_row, is_member, has_members,
  move_users, mark_row, carry_row, fold_company, merge_rows, merge, resolve,
}
use authentication_service.Merge.Tenants.{
  find_row-id, fold_company-find_row, carried-id, carried-merged_into, merge-found, merge-tenants,
}

-- Two rows that are not merged, of which one company at most has people, are merged.
merge_rows-merged :
    (s d : CompanyRow) (t : MergeTables)
    → s.merged_into ≡ none
    → d.merged_into ≡ none
    → has_members s.id t.users ≡ false
    → merge_rows s d t ≡ merged (fold_company s.id d.id d t).0 (fold_company s.id d.id d t).1
unfolding merge_rows
merge_rows-merged s d t free_s free_d nobody = ground (arith, free_s, free_d, nobody)

merge-merge_rows :
    (survivor duplicate : ℕ) (s d : CompanyRow) (t : MergeTables)
    → survivor ≢ duplicate
    → find_row survivor t.companies ≡ some s
    → find_row duplicate t.companies ≡ some d
    → merge survivor duplicate t ≡ merge_rows s d t
unfolding merge
merge-merge_rows survivor duplicate s d t apart found_s found_d =
    rw (found_s, found_d) (ground (arith, apart, nat_eq_iff survivor duplicate))

-- A company that is none of the two has the members that it had.
move_users-has_members :
    (survivor duplicate id : ℕ) (us : List Account)
    → id ≢ survivor
    → id ≢ duplicate
    → has_members id (move_users survivor duplicate us) ≡ has_members id us
unfolding move_users is_member
move_users-has_members survivor duplicate id [] apart other = refl
move_users-has_members survivor duplicate id (u ∷ us) apart other = ground (
  arith,
  move_users-has_members survivor duplicate id us apart other,
  nat_eq_iff survivor id,
  nat_eq_iff duplicate id,
  apart,
  other,
)

fold_company-has_members :
    (survivor duplicate id : ℕ) (row : CompanyRow) (t : MergeTables)
    → id ≢ survivor
    → id ≢ duplicate
    → has_members id (fold_company survivor duplicate row t).1.users ≡ has_members id t.users
unfolding fold_company
fold_company-has_members survivor duplicate id row t apart other =
    move_users-has_members survivor duplicate id t.users apart other

-- A row that is not merged is found, not merged, once another company has been folded.
fold_company-free :
    (survivor duplicate id : ℕ) (row c : CompanyRow) (t : MergeTables)
    → find_row id t.companies ≡ some c
    → c.merged_into ≡ none
    → id ≢ duplicate
    → (x : CompanyRow) × (find_row id (fold_company survivor duplicate row t).1.companies ≡ some x)
      × (x.id ≡ id)
      × (x.merged_into ≡ none)
fold_company-free survivor duplicate id row c t found free other =
    let is = find_row-id id t.companies c found in
    (
      carry_row survivor row (mark_row survivor duplicate c),
      fold_company-find_row survivor duplicate id row c t found,
      carried-id survivor duplicate row c ∙ is,
      ground (
        arith,
        carried-merged_into survivor duplicate row c,
        nat_eq_iff c.id duplicate,
        is,
        free,
        other,
      ),
    )

-- A company that has taken in another one can be merged: after a merge, the merge of its survivor into a
-- third company, which is there, not merged and without members, succeeds, and then the first duplicate
-- resolves to a company that is itself merged into the third one.
pub merge-merge :
    (first second third : ℕ) (t between : MergeTables) (r : MergeResult) (c : CompanyRow)
    → merge second first t ≡ merged r between
    → find_row third t.companies ≡ some c
    → c.merged_into ≡ none
    → has_members third t.users ≡ false
    → third ≢ second
    → third ≢ first
    → (q : MergeResult) × (after : MergeTables) × (merge third second between ≡ merged q after)
      × (resolve first after ≡ second)
      × (resolve second after ≡ third)
merge-merge first second third t between r c h found free nobody other apart =
    let (s, d, distinct, found_s, found_d, free_s, _, _, left) =
      merge-found second first t between r h in
    let (x, found_x, is_x, free_x) = fold_company-free second first third d c t found free apart in
    let (y, found_y, is_y, free_y) =
      fold_company-free second first second d s t found_s free_s distinct in
    let empty = fold_company-has_members second first third d t other apart ∙ nobody in
    let merges : merge third second between
        ≡ merged (fold_company x.id y.id y between).0 (fold_company x.id y.id y between).1 =
      merge-merge_rows third second x y between other (rw (← left) found_x) (rw (← left) found_y)
      ∙ merge_rows-merged x y between free_x free_y (rw (← left, is_x) empty) in
    let (first_to, _, _, _, _) = merge-tenants second first t between r h in
    let (second_to, _, _, _, _) = merge-tenants third second between _ _ merges in
    (
      _,
      _,
      merges,
      ground (
        arith,
        first_to first,
        second_to first,
        nat_eq_iff first first,
        nat_eq_iff first second,
        distinct,
      ),
      ground (arith, second_to second, nat_eq_iff second second),
    )

-- ===== src/Merge/Tests.antt =====
-- Concrete companies.
use authentication_service.Prelude.{
  ℕ, [], ◌∷◌, none, some, any, Pairs, false, ◌&&◌, ◌≡◌, refl, if◌then◌else◌, nat_eq,
}
use authentication_service.Auth.Sessions.{first}
use authentication_service.Merge.Companies.{
  CompanyRow, MergeTables, MergeResult, merged, find_row, is_company, has_members, is_member, merge,
  merge_rows, fold_company, resolve,
}
use authentication_service.Merge.Tenants.{Moved, merge-tenants}
use authentication_service.Merge.Chains.{merge-merge}

abbrev company_of : ℕ → CompanyRow
company_of id = record {
  id = id;
  npwp = none;
  nib = none;
  address = none;
  city_id = none;
  bank_account = none;
  merged_into = none;
  is_deleted = false;
}

-- Company 2 has a user, and a link.
abbrev tables : MergeTables
tables = record {
  companies = company_of 1 ∷ company_of 2 ∷ company_of 3 ∷ [];
  users = record { id = 7; company_id = some 2; is_deleted = false } ∷ [];
  links = record { transporter = 9; shipper = 2 } ∷ [];
}

abbrev once : MergeTables
once = (fold_company 1 2 (company_of 2) tables).1

abbrev once_result : MergeResult
once_result = (fold_company 1 2 (company_of 2) tables).0

merge-tenants_example :
    ((id : ℕ) → resolve id once ≡ (if nat_eq id 2 then 1 else resolve id tables))
    × (resolve 1 once ≡ 1)
    × Pairs (Moved 1 2) tables.users once.users
    × (any (λ u. is_company 2 u.company_id) once.users ≡ false)
    × ((has_members 2 tables.users && has_members 1 tables.users) ≡ false)
unfolding merge merge_rows fold_company find_row first is_member
merge-tenants_example = merge-tenants 1 2 tables once once_result refl

merge-merge_example :
    (q : MergeResult) × (after : MergeTables) × (merge 3 1 once ≡ merged q after)
    × (resolve 2 after ≡ 1)
    × (resolve 1 after ≡ 3)
unfolding merge merge_rows fold_company find_row first is_member
merge-merge_example =
    merge-merge 2 1 3 tables once once_result (company_of 3) refl refl refl refl (λ h. cc h)
      (λ h. cc h)

-- ===== src/Merge/Companies.antt =====
-- Merge and Resolve over the tables that they read and write, for queries that succeed. The
-- transaction makes Merge one step: its errors leave the tables as they are. What it writes after the
-- transaction is an entry of the audit log.
use authentication_service.Prelude.{
  ℕ, ◌-◌, String, Bool, true, false, not, ◌&&◌, List, [], ◌∷◌, ◌++◌, map, Option, none, some,
  nat_eq, length, keep, any, if◌then◌else◌,
}
use authentication_service.Auth.Sessions.{first}
use authentication_service.Auth.Store.{is_nil}

pub record CompanyRow : Type 0 where
  pub id : ℕ
  pub npwp : Option String
  pub nib : Option String
  pub address : Option String
  pub city_id : Option String
  pub bank_account : Option String
  pub merged_into : Option ℕ
  pub is_deleted : Bool

pub record Account : Type 0 where
  pub id : ℕ
  pub company_id : Option ℕ
  pub is_deleted : Bool

pub record Link : Type 0 where
  pub transporter : ℕ
  pub shipper : ℕ

pub record MergeTables : Type 0 where
  pub companies : List CompanyRow
  pub users : List Account
  pub links : List Link

pub data MergeError : Type 0 where
  merge_into_self not_existing already_merged survivor_has_users : MergeError

pub record MergeResult : Type 0 where
  pub survivor_id : ℕ
  pub merged_id : ℕ
  pub users_moved : ℕ
  pub links_moved : ℕ

unfoldable pub find_row : ℕ → List CompanyRow → Option CompanyRow
unfolding first
find_row id = first (λ c. nat_eq c.id id)

abbrev pub is_company : ℕ → Option ℕ → Bool
is_company id none = false
is_company id (some c) = nat_eq c id

-- `company_id = ? AND deleted_at IS NULL`
unfoldable pub is_member : ℕ → Account → Bool
is_member id u = is_company id u.company_id && not u.is_deleted

-- `UPDATE users SET company_id = survivor WHERE company_id = duplicate`
unfoldable pub move_users : ℕ → ℕ → List Account → List Account
move_users survivor duplicate [] = []
move_users survivor duplicate (u ∷ us) =
    (if is_company duplicate u.company_id then record u { company_id = some survivor } else u)
    ∷ move_users survivor duplicate us

unfoldable pub is_link : ℕ → ℕ → Link → Bool
is_link transporter shipper l = nat_eq l.transporter transporter && nat_eq l.shipper shipper

-- `INSERT … SELECT … ON CONFLICT DO NOTHING`, one row after the other.
unfoldable pub copy_links : ℕ → ℕ → List Link → List Link → List Link
unfolding is_link
copy_links survivor duplicate [] all = all
copy_links survivor duplicate (l ∷ ls) all = copy_links survivor duplicate ls (
    if nat_eq l.shipper duplicate && not (any (is_link l.transporter survivor) all)
    then all ++ record { transporter = l.transporter; shipper = survivor } ∷ []
    else all)

-- `DELETE FROM company_links WHERE shipper_company_id = duplicate`
unfoldable pub drop_links : ℕ → List Link → List Link
drop_links duplicate ls = keep (λ l. not (nat_eq l.shipper duplicate)) ls

-- The duplicate loses its identifiers and points to the survivor.
unfoldable pub mark_row : ℕ → ℕ → CompanyRow → CompanyRow
mark_row survivor duplicate c =
    if nat_eq c.id duplicate
    then record c { npwp = none; nib = none; merged_into = some survivor; is_deleted = true }
    else c

-- COALESCE
abbrev pub coalesce {ℓ} : {A : Type ℓ} → Option A → Option A → Option A
coalesce none other = other
coalesce (some a) other = some a

-- The survivor takes what it has not.
unfoldable pub carry_row : ℕ → CompanyRow → CompanyRow → CompanyRow
carry_row survivor carried c =
    if nat_eq c.id survivor
    then record c {
      npwp = coalesce c.npwp carried.npwp;
      nib = coalesce c.nib carried.nib;
      address = coalesce c.address carried.address;
      city_id = coalesce c.city_id carried.city_id;
      bank_account = coalesce c.bank_account carried.bank_account;
    }
    else c

-- What the transaction writes once its checks have passed.
unfoldable pub fold_company : ℕ → ℕ → CompanyRow → MergeTables → MergeResult × MergeTables
unfolding move_users copy_links drop_links mark_row carry_row
fold_company survivor duplicate row t =
    let copied = copy_links survivor duplicate t.links t.links in
    (
      record {
        survivor_id = survivor;
        merged_id = duplicate;
        users_moved = length (keep (λ u. is_company duplicate u.company_id) t.users);
        links_moved = length copied - length t.links;
      },
      record {
        companies = map (λ c. carry_row survivor row (mark_row survivor duplicate c)) t.companies;
        users = move_users survivor duplicate t.users;
        links = drop_links duplicate copied;
      },
    )

pub data Merged : Type 0 where
  refused : MergeError → Merged
  merged : MergeResult → MergeTables → Merged

abbrev pub has_members : ℕ → List Account → Bool
has_members id us = any (is_member id) us

-- The checks on the locked rows.
unfoldable pub merge_rows : CompanyRow → CompanyRow → MergeTables → Merged
unfolding fold_company is_member
merge_rows survivor duplicate t =
    if not (is_nil duplicate.merged_into)
    then refused already_merged
    else if not (is_nil survivor.merged_into)
    then refused already_merged
    else if has_members duplicate.id t.users && has_members survivor.id t.users
    then refused survivor_has_users
    else let (result, after) = fold_company survivor.id duplicate.id duplicate t in
      merged result after

-- Merge
unfoldable pub merge : ℕ → ℕ → MergeTables → Merged
unfolding merge_rows find_row
merge survivor_id duplicate_id t =
    if nat_eq survivor_id duplicate_id
    then refused merge_into_self
    else elim (find_row survivor_id t.companies) [
      | none ↦ refused not_existing
      | some survivor ↦ elim (find_row duplicate_id t.companies) [
        | none ↦ refused not_existing
        | some duplicate ↦ merge_rows survivor duplicate t
      ]
    ]

abbrev pub target_or : ℕ → Option CompanyRow → ℕ
target_or id none = id
target_or id (some row) = elim row.merged_into [ none ↦ id | some target ↦ target ]

-- Resolve
unfoldable pub resolve : ℕ → MergeTables → ℕ
unfolding find_row
resolve id t = target_or id (find_row id t.companies)

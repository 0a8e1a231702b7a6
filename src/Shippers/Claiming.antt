-- ===== src/Shippers/Claiming.antt =====
-- IssueClaimLink, PreviewClaim and Claim, for calls of the libraries that succeed. A transaction
-- writes all or nothing, and the audit entry after it is kept with it.
use authentication_service.Prelude.{
  ℕ, ◌+◌, ◌*◌, String, Bool, true, false, not, ◌&&◌, ◌||◌, List, [], ◌∷◌, ◌++◌, map, any, Option,
  none, some, ◌==◌, nat_eq, ltb, if◌then◌else◌,
}
use authentication_service.Prelude.Text.{trim_space}
use authentication_service.Prelude.Attempt.{Attempt, yields, ◌>>=◌, ◌>>◌, fail_if, or_fail}
use authentication_service.Revocation.Held.{Time}
use authentication_service.Auth.Store.{Uuid, User, Audit, claim_issued, claim_completed}
use authentication_service.Auth.Sessions.{first, is_text, is_citext}
use authentication_service.Auth.Tokens.{nil_if_empty}
use authentication_service.Auth.Account.{is_strong}
use authentication_service.Entitlement.Rows.{CompanyProductSettings}
use authentication_service.Merge.Companies.{copy_links, drop_links}
use authentication_service.Users.Directory.{Directory}
use authentication_service.Users.Registration.{
  count_active_users, ensure_administrator, grant_defaults,
}
use authentication_service.Shippers.Tables.{
  Customer, ShipperTables, ShipperError, claim_not_found, claim_expired, already_claimed,
  npwp_required, identifier_required, weak_password, other_has_users, account_exists, broken,
  normalise_tax_id, holds_tax, find_by_claim, is_live,
}

-- Fourteen days, in nanoseconds.
abbrev pub claim_token_ttl : ℕ
claim_token_ttl = 14 * (24 * (3600 * 1000000000))

pub record ClaimInput : Type 0 where
  pub token : String
  pub email : String
  pub phone : String
  pub username : String
  pub password : String
  pub npwp : String

pub record ClaimResult : Type 0 where
  pub company_id : Uuid
  pub user_id : Uuid
  pub role_id : Uuid
  pub duplicate_of : Option Uuid

-- The clock, the random token, the hashes, the lower-casing of Go and that of a CITEXT column, and the
-- ids of new rows.
pub record Claims : Type 0 where
  pub now : Time
  pub token : String
  pub hash_token : String → String
  pub hash_password : String → String
  pub lower : String → String
  pub fold : String → String
  pub user_id : Uuid
  pub role_id : Uuid

abbrev pub noted : Audit → Directory → Directory
noted entry d = record d { store = record d.store { audit = d.store.audit ++ entry ∷ [] } }

-- `UPDATE companies SET … WHERE id = ? AND deleted_at IS NULL`
unfoldable pub offer : String → Time → Uuid → Customer → Customer
unfolding is_live
offer hash expires id c =
    if is_live id c
    then record c { claim_token_hash = some hash; claim_expires_at = some expires }
    else c

abbrev pub has_people : Uuid → Directory → Bool
has_people company d = ltb 0 (count_active_users company d.store.users)

-- `ClaimExpiresAt == nil || ClaimExpiresAt.Before(time.Now())`
abbrev pub has_lapsed : Time → Option Time → Bool
has_lapsed now none = true
has_lapsed now (some at) = ltb at now

-- `normalise_tax_id(npwp) = ? AND id <> ? AND deleted_at IS NULL`
unfoldable pub find_other : String → Uuid → List Customer → Option Customer
unfolding first holds_tax
find_other tax id = first (λ c. holds_tax tax c && not (nat_eq c.id id))

-- The last statement of foldIn.
unfoldable pub fold_row : Uuid → Uuid → Customer → Customer
fold_row survivor loser c =
    if nat_eq c.id loser
    then record c { npwp = none; nib = none; merged_into = some survivor; is_deleted = true }
    else c

-- foldIn
unfoldable pub fold_in : Uuid → Uuid → ShipperTables → Attempt ShipperError ShipperTables
unfolding copy_links drop_links fold_row count_active_users
fold_in survivor loser t = do
  fail_if (has_people loser t.directory) other_has_users
  yields (record t {
    companies = map (fold_row survivor loser) t.companies;
    links = drop_links loser (copy_links survivor loser t.links t.links);
  })

abbrev pub id_of : Option Customer → Option Uuid
id_of none = none
id_of (some c) = some c.id

unfoldable pub fold_duplicate :
    Uuid → Option Customer → ShipperTables → Attempt ShipperError ShipperTables
unfolding fold_in
fold_duplicate survivor none t = yields t
fold_duplicate survivor (some other) t = fold_in survivor other.id t

-- The company takes the tax number, and its link is consumed.
unfoldable pub consume : String → Uuid → Customer → Customer
consume npwp id c =
    if nat_eq c.id id
    then record c { npwp = some npwp; claim_token_hash = none; claim_expires_at = none }
    else c

-- The index refuses the update where another company holds the number.
unfoldable pub record_tax : String → Uuid → List Customer → Attempt ShipperError (List Customer)
unfolding consume holds_tax normalise_tax_id
record_tax npwp id cs = do
  fail_if (any (λ c. holds_tax (normalise_tax_id npwp) c && not (nat_eq c.id id)) cs) broken
  yields (map (consume npwp id) cs)

-- What the unique index of an identifier refuses: `equals` is the equality of the column.
abbrev pub clashes :
    (Option String → String → Bool) → (User → Option String) → Option String → List User → Bool
clashes equals field none users = false
clashes equals field (some value) users = any (λ u. equals (field u) value) users

-- The emails and the usernames are CITEXT, the phones are not.
abbrev pub is_registered : (String → String) → User → List User → Bool
is_registered fold u users =
    clashes (is_citext fold) (λ v. v.email) u.email users
    || (clashes (is_citext fold) (λ v. v.username) u.username users
        || clashes is_text (λ v. v.phone) u.phone users)

unfoldable pub claimed_features : List String
claimed_features =
    "order" ∷ "agreement" ∷ "invoice" ∷ "shipment" ∷ "truck" ∷ "warehouse" ∷ "customer"
    ∷ "dashboard" ∷ "notification" ∷ "collaboration" ∷ "masterData" ∷ []

-- The mode of the entitlement, `ON CONFLICT DO NOTHING`.
unfoldable pub grant_mode : Uuid → List CompanyProductSettings → List CompanyProductSettings
grant_mode company rows =
    if any (λ r. nat_eq r.company_id company && r.product == "tms") rows
    then rows
    else rows ++ record { company_id = company; product = "tms"; entitlement_mode = "grant" } ∷ []

module _ (env : Claims) where
  -- IssueClaimLink
  unfoldable pub issue_claim_link :
      Uuid → Uuid → ShipperTables → Attempt ShipperError ((String × Time) × ShipperTables)
  unfolding count_active_users is_live offer
  issue_claim_link company actor t = do
    fail_if (has_people company t.directory) already_claimed
    fail_if (not (any (is_live company) t.companies)) claim_not_found
    yields (
      (env.token, env.now + claim_token_ttl),
      record t {
        companies =
            map (offer (env.hash_token env.token) (env.now + claim_token_ttl) company) t.companies;
        directory = noted (claim_issued company actor) t.directory;
      },
    )

  -- PreviewClaim
  unfoldable pub preview_claim : String → ShipperTables → Attempt ShipperError String
  unfolding find_by_claim
  preview_claim token t = do
    c ← or_fail claim_not_found (find_by_claim (env.hash_token token) t.companies)
    fail_if (c.name == "") claim_not_found
    fail_if (has_lapsed env.now c.claim_expires_at) claim_expired
    yields c.name

  -- The address as it is stored.
  abbrev pub stored_email : String → Option String
  stored_email email = if email == "" then none else some (env.lower (trim_space email))

  -- The first person of the company.
  unfoldable pub new_claimant : ClaimInput → Uuid → Uuid → User
  unfolding trim_space nil_if_empty
  new_claimant input company role = record {
    id = env.user_id;
    email = stored_email input.email;
    username = nil_if_empty input.username;
    phone = nil_if_empty input.phone;
    password_hash = env.hash_password input.password;
    is_suspended = false;
    is_platform_staff = false;
    max_devices = 0;
    fms_user_id = none;
    company_id = some company;
    company = none;
    role_id = some role;
  }

  -- The people, roles and entitlement of the company that is claimed.
  unfoldable pub settle : ClaimInput → Uuid → Directory → Attempt ShipperError (Uuid × Directory)
  unfolding new_claimant ensure_administrator grant_defaults claimed_features grant_mode
  settle input company d =
      let (role, roles) = ensure_administrator env.role_id company d.roles in
      do
        fail_if (is_registered env.fold (new_claimant input company role) d.store.users)
            account_exists
        yields (
          role,
          record d {
            store = record d.store {
              users = d.store.users ++ new_claimant input company role ∷ [];
            };
            roles = roles;
            modules = grant_defaults company claimed_features d.modules;
            settings = grant_mode company d.settings;
          },
        )

  -- What the transaction of Claim leaves.
  abbrev pub taken :
      Uuid
      → Option Uuid
      → ShipperTables
      → List Customer
      → Uuid × Directory
      → ClaimResult × ShipperTables
  taken company duplicate folded companies settled = (
    record {
      company_id = company;
      user_id = env.user_id;
      role_id = settled.0;
      duplicate_of = duplicate;
    },
    record folded {
      companies = companies;
      directory = noted (claim_completed env.user_id company) settled.1;
    },
  )

  -- The transaction of Claim on the row that the link names.
  unfoldable pub take_over :
      ClaimInput → Customer → ShipperTables → Attempt ShipperError (ClaimResult × ShipperTables)
  unfolding count_active_users find_other normalise_tax_id fold_duplicate record_tax settle
  take_over input c t = do
    fail_if (has_lapsed env.now c.claim_expires_at) claim_expired
    fail_if (has_people c.id t.directory) already_claimed
    folded ← fold_duplicate c.id (find_other (normalise_tax_id input.npwp) c.id t.companies) t
    companies ← record_tax input.npwp c.id folded.companies
    settled ← settle input c.id folded.directory
    yields (
        taken c.id (id_of (find_other (normalise_tax_id input.npwp) c.id t.companies)) folded
          companies settled)

  -- Claim
  unfoldable pub claim :
      ClaimInput → ShipperTables → Attempt ShipperError (ClaimResult × ShipperTables)
  unfolding trim_space normalise_tax_id is_strong find_by_claim take_over
  claim input t = do
    fail_if (trim_space input.npwp == "" || normalise_tax_id input.npwp == "") npwp_required
    fail_if (input.email == "" && (input.phone == "" && input.username == "")) identifier_required
    fail_if (not (is_strong input.password)) weak_password
    c ← or_fail claim_not_found (find_by_claim (env.hash_token input.token) t.companies)
    take_over input c t

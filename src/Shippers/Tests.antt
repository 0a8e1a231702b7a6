-- ===== src/Shippers/Tests.antt =====
-- A shipper that a transporter has recorded, which is issued a link and claims it.
use authentication_service.Prelude.{
  String, ◌≢◌, ◌⊎◌, true, false, [], ◌∷◌, any, none, some, ◌==◌, arith, ◌≡◌, refl, if◌then◌else◌,
}
use authentication_service.Prelude.Attempt.{Attempt, yields, fails}
use authentication_service.Auth.Account.{is_strong}
use authentication_service.Auth.Sessions.{first}
use authentication_service.Merge.Companies.{is_link}
use authentication_service.Shippers.Tables.{
  Customer, ShipperTables, ShipperError, holds_nib, tax_of, broken, shipper_exists, claim_not_found,
  find_by_claim, holds_tax, is_live, normalise_tax_id,
}
use authentication_service.Shippers.Record.{CreateShipperInput, Library, create_shipper}
use authentication_service.Shippers.Claiming.{
  ClaimInput, ClaimResult, Claims, new_claimant, claim, issue_claim_link, preview_claim, find_other,
}
use authentication_service.Shippers.Unique.{Unique, here, next, issues}
use authentication_service.Shippers.Index.{Reach-unrefused}
use authentication_service.Shippers.Offered.{issue_claim_link-claim}
use authentication_service.Shippers.Shared.{create_shipper-shared}

abbrev as_is : String → String
as_is s = s

abbrev library : Library
library = record { lower = as_is; upper = as_is; is_word = λ c. true }

abbrev env : Claims
env = record {
  now = 100;
  token = "t";
  hash_token = as_is;
  fold = λ s. s;
  hash_password = as_is;
  lower = as_is;
  user_id = 10;
  role_id = 12;
}

abbrev empty_tables : ShipperTables
empty_tables = record {
  companies = [];
  links = [];
  directory = record {
    store = record {
      users = [];
      sessions = [];
      api_keys = [];
      companies = [];
      announced = [];
      audit = [];
    };
    roles = [];
    extras = [];
    modules = [];
    settings = [];
  };
}

abbrev shipper : CreateShipperInput
shipper = record {
  name = "SINAR";
  abbreviation = none;
  entity_type = "company";
  npwp = some "01.2";
  nib = none;
  address = none;
  city_id = none;
  phone = none;
}

abbrev tables_of {ℓ} : {A : Type ℓ} → Attempt ShipperError (A × ShipperTables) → ShipperTables
tables_of (yields (a, t)) = t
tables_of (fails e) = empty_tables

abbrev placeholder : Customer
placeholder = record {
  id = 1;
  name = "SINAR";
  abbreviation = some "SIN";
  role = "shipper";
  entity_type = "company";
  npwp = some "01.2";
  nib = none;
  address = none;
  city_id = none;
  phone = none;
  created_by = some 7;
  claim_token_hash = none;
  claim_expires_at = none;
  merged_into = none;
  is_deleted = false;
}

abbrev recorded : ShipperTables
recorded = record empty_tables {
  companies = placeholder ∷ [];
  links = record { transporter = 7; shipper = 1 } ∷ [];
}

-- Another transporter records the same business, with its number written otherwise.
abbrev again : CreateShipperInput
again = record shipper { npwp = some "012" }

create_shipper-shared_example :
    (placeholder ≡ placeholder)
    × (true ≡ true)
    × ((tables_of (create_shipper library 2 8 again recorded)).companies ≡ recorded.companies)
    × (any (is_link 7 1) (tables_of (create_shipper library 2 8 again recorded)).links ≡ true)
    × (any (is_link 8 1) (tables_of (create_shipper library 2 8 again recorded)).links ≡ true)
unfolding create_shipper normalise_tax_id
create_shipper-shared_example =
    create_shipper-shared library 1 2 7 8 shipper again empty_tables recorded
      (tables_of (create_shipper library 2 8 again recorded))
      (record { company = placeholder; existing = false })
      (record { company = placeholder; existing = true }) refl refl refl refl

recorded-Unique : Unique recorded.companies
unfolding holds_tax
recorded-Unique = (λ tax. ground arith, λ id. ground arith)

abbrev issued : ShipperTables
issued = tables_of (issue_claim_link env 1 6 recorded)

abbrev claimant : ClaimInput
claimant = record {
  token = "t";
  email = "a@b";
  phone = "";
  username = "";
  password = "rahasia123";
  npwp = "012";
}

-- A claim of the company that was recorded, and another record of it by a second transporter.
Reach-unrefused_example :
    Unique issued.companies
    × (claim env claimant issued ≢ fails broken)
    × ((any (holds_nib (tax_of again.nib)) issued.companies ≡ true)
        ⊎ (create_shipper library 2 8 again issued ≢ fails shipper_exists))
unfolding issue_claim_link
Reach-unrefused_example =
    Reach-unrefused library recorded issued env claimant 2 8 again
      (next here (issues env 1 6 _ refl)) recorded-Unique

abbrev claimed : ShipperTables
claimed = tables_of (claim env claimant issued)

issue_claim_link-claim_example :
    (c : Customer) × (r : ClaimResult) × (final : ShipperTables) × (first
        (is_live 1)
        recorded.companies
      ≡ some c)
    × (claim env claimant issued ≡ yields (r, final))
    × (r.company_id ≡ 1)
    × (preview_claim env "t" issued
        ≡ (if c.name == "" then fails claim_not_found else yields c.name))
unfolding issue_claim_link find_by_claim new_claimant find_other normalise_tax_id holds_tax first
    is_strong
issue_claim_link-claim_example =
    issue_claim_link-claim env env 1 6 claimant recorded issued _ refl refl refl (ground arith) refl
      refl refl (λ role. refl) recorded-Unique (λ o other. absurd (ground arith))

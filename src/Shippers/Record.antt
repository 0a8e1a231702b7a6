-- ===== src/Shippers/Record.antt =====
-- CreateShipper and the listings, for queries that succeed. A transaction writes all or nothing; the
-- unique indexes on tax numbers refuse an insertion.
use authentication_service.Prelude.{
  String, Bool, true, false, not, ◌&&◌, ◌||◌, List, [], ◌∷◌, ◌++◌, any, keep, Option, none, some,
  ◌==◌, if◌then◌else◌,
}
use authentication_service.Prelude.Text.{trim_space}
use authentication_service.Prelude.Attempt.{Attempt, yields, ◌>>=◌, ◌>>◌, fail_if, or_fail}
use authentication_service.Auth.Store.{Uuid}
use authentication_service.Merge.Companies.{Link, is_link}
use authentication_service.Abbrev.Derive.{before_create}
use authentication_service.Shippers.Tables.{
  Customer, ShipperTables, ShipperError, name_required, bad_entity_type, has_no_nib, shipper_exists,
  no_code, tax_of, holds_tax, holds_nib, find_by_tax,
}
use Prim.Native.Char.{Char}

pub record CreateShipperInput : Type 0 where
  pub name : String
  pub abbreviation : Option String
  pub entity_type : String
  pub npwp : Option String
  pub nib : Option String
  pub address : Option String
  pub city_id : Option String
  pub phone : Option String

pub record CreateShipperResult : Type 0 where
  pub company : Customer
  pub existing : Bool

-- The functions of the standard library on texts.
pub record Library : Type 0 where
  pub lower : String → String
  pub upper : String → String
  pub is_word : Char → Bool

-- link: `INSERT … ON CONFLICT DO NOTHING`
unfoldable pub link : Uuid → Uuid → List Link → List Link
unfolding is_link
link transporter shipper links =
    if any (is_link transporter shipper) links
    then links
    else links ++ record { transporter = transporter; shipper = shipper } ∷ []

abbrev pub or_company : String → String
or_company s = if s == "" then "company" else s

abbrev pub is_given : Option String → Bool
is_given none = false
is_given (some s) = not (s == "")

-- The new row.
unfoldable pub new_customer : Uuid → Uuid → String → String → CreateShipperInput → Customer
new_customer id transporter name code input = record {
  id = id;
  name = name;
  abbreviation = some code;
  role = "shipper";
  entity_type = or_company input.entity_type;
  npwp = input.npwp;
  nib = input.nib;
  address = input.address;
  city_id = input.city_id;
  phone = input.phone;
  created_by = some transporter;
  claim_token_hash = none;
  claim_expires_at = none;
  merged_into = none;
  is_deleted = false;
}

-- The unique indexes on the tax numbers.
unfoldable pub is_refused : Customer → List Customer → Bool
unfolding holds_tax holds_nib
is_refused c cs = any (holds_tax (tax_of c.npwp)) cs || any (holds_nib (tax_of c.nib)) cs

module _ (lib : Library) where
  -- The insertion, and the link to it.
  unfoldable pub insert_customer :
      Uuid
      → Uuid
      → String
      → CreateShipperInput
      → ShipperTables
      → Attempt ShipperError (CreateShipperResult × ShipperTables)
  unfolding before_create new_customer is_refused link
  insert_customer id transporter name input t = do
    code ← or_fail no_code (before_create lib.lower lib.upper lib.is_word name input.abbreviation)
    fail_if (is_refused (new_customer id transporter name code input) t.companies) shipper_exists
    yields (
      record { company = new_customer id transporter name code input; existing = false },
      record t {
        companies = t.companies ++ new_customer id transporter name code input ∷ [];
        links = link transporter id t.links;
      },
    )

  -- The transaction of CreateShipper, with what the look-up has found.
  unfoldable pub link_or_insert :
      Option Customer
      → Uuid
      → Uuid
      → String
      → CreateShipperInput
      → ShipperTables
      → Attempt ShipperError (CreateShipperResult × ShipperTables)
  unfolding insert_customer link
  link_or_insert (some known) id transporter name input t = yields (
    record { company = known; existing = true },
    record t { links = link transporter known.id t.links },
  )
  link_or_insert none id transporter name input t = insert_customer id transporter name input t

  -- CreateShipper, with the id of the row that it may insert.
  unfoldable pub create_shipper :
      Uuid
      → Uuid
      → CreateShipperInput
      → ShipperTables
      → Attempt ShipperError (CreateShipperResult × ShipperTables)
  unfolding trim_space link_or_insert find_by_tax
  create_shipper id transporter input t = do
    fail_if (trim_space input.name == "") name_required
    fail_if
        (not
          (or_company input.entity_type == "company" || or_company input.entity_type == "personal"))
        bad_entity_type
    fail_if (or_company input.entity_type == "personal" && is_given input.nib) has_no_nib
    link_or_insert (find_by_tax (tax_of input.npwp) t.companies) id transporter
        (trim_space input.name) input t

-- The companies at the other end of the links, but for the order by name.
unfoldable pub list_shippers : Uuid → ShipperTables → List Customer
unfolding is_link
list_shippers transporter t =
    keep (λ c. not c.is_deleted && any (is_link transporter c.id) t.links) t.companies

unfoldable pub list_transporters : Uuid → ShipperTables → List Customer
unfolding is_link
list_transporters shipper t =
    keep (λ c. not c.is_deleted && any (is_link c.id shipper) t.links) t.companies

-- ===== src/Shippers/Tables.antt =====
-- What the methods of ShipperService read and write.
use Prim.Native.Char.{code}
use authentication_service.Prelude.{
  String, Bool, not, ◌&&◌, List, Option, none, some, ◌==◌, leb, nat_eq, if◌then◌else◌,
}
use authentication_service.Revocation.Held.{Time}
use authentication_service.Auth.Store.{Uuid}
use authentication_service.Auth.Sessions.{first, is_text}
use authentication_service.Merge.Companies.{Link}
use authentication_service.Users.Directory.{Directory}

-- The columns of companies.
pub record Customer : Type 0 where
  pub id : Uuid
  pub name : String
  pub abbreviation : Option String
  pub role : String
  pub entity_type : String
  pub npwp : Option String
  pub nib : Option String
  pub address : Option String
  pub city_id : Option String
  pub phone : Option String
  pub created_by : Option Uuid
  pub claim_token_hash : Option String
  pub claim_expires_at : Option Time
  pub merged_into : Option Uuid
  pub is_deleted : Bool

pub record ShipperTables : Type 0 where
  pub companies : List Customer
  pub links : List Link
  pub directory : Directory

pub data ShipperError : Type 0 where
  name_required bad_entity_type has_no_nib shipper_exists no_code : ShipperError
  claim_not_found claim_expired already_claimed npwp_required : ShipperError
  identifier_required weak_password other_has_users account_exists broken : ShipperError

-- normaliseTaxID
unfoldable pub normalise_tax_id : String → String
normalise_tax_id String.[] = ""
normalise_tax_id (String.◌∷◌ c s) =
    let rest = normalise_tax_id s in
    if leb 0x30 (code c) && leb (code c) 0x39 then String.◌∷◌ c rest else rest

-- The SQL function of that name, the empty text for NULL.
abbrev pub tax_of : Option String → String
tax_of none = ""
tax_of (some v) = normalise_tax_id v

-- `normalise_tax_id(npwp) = ? AND deleted_at IS NULL`, for a number that is not empty.
unfoldable pub holds_tax : String → Customer → Bool
unfolding normalise_tax_id
holds_tax tax c = not c.is_deleted && (not (tax == "") && tax_of c.npwp == tax)

unfoldable pub holds_nib : String → Customer → Bool
unfolding normalise_tax_id
holds_nib nib c = not c.is_deleted && (not (nib == "") && tax_of c.nib == nib)

unfoldable pub find_by_tax : String → List Customer → Option Customer
unfolding first holds_tax
find_by_tax tax = first (holds_tax tax)

-- `claim_token_hash = ? AND deleted_at IS NULL`
unfoldable pub find_by_claim : String → List Customer → Option Customer
unfolding first
find_by_claim hash = first (λ c. is_text c.claim_token_hash hash && not c.is_deleted)

unfoldable pub is_live : Uuid → Customer → Bool
is_live id c = nat_eq c.id id && not c.is_deleted

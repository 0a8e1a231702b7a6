-- ===== src/Shippers/Index.antt =====
-- What the unique indexes on the tax numbers refuse, after the look-ups.
use authentication_service.Prelude.{
  ◌≤◌, String, Bool, true, false, not, ◌&&◌, ◌||◌, List, [], ◌∷◌, map, any, none, some, ◌==◌,
  nat_eq, nat_eq_iff, ◌≡◌, ◌≢◌, ◌⊎◌, Option, refl, ap, arith, inl, inr, Bool-cases, Option-cases,
}
use authentication_service.Prelude.Text.{trim_space}
use authentication_service.Prelude.Attempt.{never-chain, never-fail_if, yields, fails, or_fail}
use authentication_service.Auth.Store.{Uuid}
use authentication_service.Auth.Sessions.{first}
use authentication_service.Auth.Account.{is_strong}
use authentication_service.Users.Directory.{Directory}
use authentication_service.Shippers.Tables.{
  Customer, ShipperTables, find_by_tax, holds_nib, tax_of, no_code, name_required, bad_entity_type,
  has_no_nib, shipper_exists, broken, claim_not_found, claim_expired, already_claimed,
  npwp_required, identifier_required, weak_password, normalise_tax_id, holds_tax, find_by_claim,
}
use authentication_service.Abbrev.Derive.{before_create}
use authentication_service.Shippers.Record.{
  CreateShipperInput, Library, insert_customer, is_refused, new_customer, link_or_insert,
  create_shipper, or_company, is_given,
}
use authentication_service.Shippers.Claiming.{
  ClaimInput, Claims, has_people, has_lapsed, find_other, fold_row, fold_in, fold_duplicate,
  record_tax, settle, take_over, claim,
}
use authentication_service.Shippers.Unique.{Reach, Reach-Unique, Unique, holders, holders-fold_row}

first-none : (p : Customer → Bool) (cs : List Customer) → first p cs ≡ none → any p cs ≡ false
unfolding first
first-none p [] h = refl
first-none p (c ∷ cs) h = ground (arith, h, first-none p cs)

pub other-none :
    (tax : String) (id : Uuid) (cs : List Customer)
    → find_other tax id cs ≡ none
    → any (λ c. holds_tax tax c && not (nat_eq c.id id)) cs ≡ false
unfolding find_other
other-none tax id cs h = first-none (λ c. holds_tax tax c && not (nat_eq c.id id)) cs h

unheld :
    (tax : String) (id : Uuid) (cs : List Customer)
    → holders tax cs ≤ 0
    → any (λ c. holds_tax tax c && not (nat_eq c.id id)) cs ≡ false
unheld tax id [] h = refl
unheld tax id (c ∷ cs) h = ground (arith, h, unheld tax id cs)

-- Once the only other holder of a number is folded in, the number is free for the company.
pub freed :
    (tax : String) (id : Uuid) (cs : List Customer) (o : Customer)
    → find_other tax id cs ≡ some o
    → holders tax cs ≤ 1
    → any (λ c. holds_tax tax c && not (nat_eq c.id id)) (map (fold_row id o.id) cs) ≡ false
unfolding find_other first fold_row holds_tax
freed tax id [] o h once = absurd (cc)
freed tax id (c ∷ cs) o h once = elim (Bool-cases (holds_tax tax c && not (nat_eq c.id id))) [
  | inl here ↦
      let is : c ≡ o = ground (arith, h, here) in
      let none_left : holders tax (map (fold_row id o.id) cs) ≤ 0 =
        ground (arith, once, here, holders-fold_row id o.id tax cs) in
      ground (
        arith,
        here,
        is,
        nat_eq_iff c.id o.id,
        ap (λ (x : Customer). x.id) is,
        unheld tax id (map (fold_row id o.id) cs) none_left,
      )
  | inr other ↦ ground (arith, other, h, once, freed tax id cs o)
]

-- The look-up of CreateShipper stops the insertion of a number that is held, so that only the number of
-- the business, which it does not look for, is refused.
inserted-shipper_exists :
    (lib : Library) (id transporter : Uuid) (name : String) (input : CreateShipperInput)
    (t : ShipperTables)
    → find_by_tax (tax_of input.npwp) t.companies ≡ none
    → any (holds_nib (tax_of input.nib)) t.companies ≡ false
    → insert_customer lib id transporter name input t ≢ fails shipper_exists
unfolding insert_customer find_by_tax is_refused new_customer
inserted-shipper_exists lib id transporter name input t missing free =
    let taxes = first-none (holds_tax (tax_of input.npwp)) t.companies missing in
    never-chain shipper_exists
      (or_fail no_code (before_create lib.lower lib.upper lib.is_word name input.abbreviation)) _
      (λ h. ground (arith, h)) (λ code made h. absurd (ground (arith, h, taxes, free)))

create_shipper-shipper_exists :
    (lib : Library) (id transporter : Uuid) (input : CreateShipperInput) (t : ShipperTables)
    → any (holds_nib (tax_of input.nib)) t.companies ≡ false
    → create_shipper lib id transporter input t ≢ fails shipper_exists
unfolding create_shipper link_or_insert
create_shipper-shipper_exists lib id transporter input t free =
    never-fail_if shipper_exists name_required (trim_space input.name == "") _ (λ h. cc h)
      (never-fail_if shipper_exists bad_entity_type
        (not
          (or_company input.entity_type == "company" || or_company input.entity_type == "personal"))
        _ (λ h. cc h)
        (never-fail_if shipper_exists has_no_nib
          (or_company input.entity_type == "personal" && is_given input.nib) _ (λ h. cc h)
          (elim (Option-cases (find_by_tax (tax_of input.npwp) t.companies)) [
            | inl missing ↦ rw missing (
                inserted-shipper_exists lib id transporter (trim_space input.name) input t missing
                  free)
            | inr (known, found) ↦ rw found (λ h. cc h)
          ])))

fold_duplicate-broken :
    (id : Uuid) (other : Option Customer) (t : ShipperTables)
    → fold_duplicate id other t ≢ fails broken
unfolding fold_duplicate fold_in
fold_duplicate-broken id none t h = cc h
fold_duplicate-broken id (some o) t h = ground (arith, h)

-- What the fold-in leaves to the company of a claim is free.
record_tax-folded :
    (npwp : String) (id : Uuid) (t folded : ShipperTables)
    → fold_duplicate id (find_other (normalise_tax_id npwp) id t.companies) t ≡ yields folded
    → Unique t.companies
    → record_tax npwp id folded.companies ≢ fails broken
unfolding fold_duplicate fold_in record_tax
record_tax-folded npwp id t folded h (taxes, _) e =
    elim (Option-cases (find_other (normalise_tax_id npwp) id t.companies)) [
      | inl missing ↦
          let same : t ≡ folded = ground (arith, rw missing at h) in
          absurd (
            ground
              (arith, rw (← same) at e, other-none (normalise_tax_id npwp) id t.companies missing))
      | inr (o, found) ↦
          let is : map (fold_row id o.id) t.companies ≡ folded.companies =
            ground (arith, rw found at h) in
          absurd (
            ground (
              arith,
              rw (← is) at e,
              freed (normalise_tax_id npwp) id t.companies o found (taxes (normalise_tax_id npwp)),
            ))
    ]

settle-broken :
    (env : Claims) (input : ClaimInput) (company : Uuid) (d : Directory)
    → settle env input company d ≢ fails broken
unfolding settle
settle-broken env input company d h = ground (arith, h)

take_over-broken :
    (env : Claims) (input : ClaimInput) (c : Customer) (t : ShipperTables)
    → Unique t.companies
    → take_over env input c t ≢ fails broken
unfolding take_over
take_over-broken env input c t unique =
    never-fail_if broken claim_expired (has_lapsed env.now c.claim_expires_at) _ (λ h. cc h)
      (never-fail_if broken already_claimed (has_people c.id t.directory) _ (λ h. cc h)
        (never-chain broken
          (fold_duplicate c.id (find_other (normalise_tax_id input.npwp) c.id t.companies) t) _
          (fold_duplicate-broken c.id (find_other (normalise_tax_id input.npwp) c.id t.companies) t)
          (λ folded folds.
            never-chain broken (record_tax input.npwp c.id folded.companies) _
              (record_tax-folded input.npwp c.id t folded folds unique)
              (λ cs records.
                never-chain broken (settle env input c.id folded.directory) _
                  (settle-broken env input c.id folded.directory) (λ s settles h. cc h)))))

claim-broken :
    (env : Claims) (input : ClaimInput) (t : ShipperTables)
    → Unique t.companies
    → claim env input t ≢ fails broken
unfolding claim
claim-broken env input t unique =
    never-fail_if broken npwp_required
      (trim_space input.npwp == "" || normalise_tax_id input.npwp == "") _ (λ h. cc h)
      (never-fail_if broken identifier_required
        (input.email == "" && (input.phone == "" && input.username == "")) _ (λ h. cc h)
        (never-fail_if broken weak_password (not (is_strong input.password)) _ (λ h. cc h)
          (never-chain broken
            (or_fail claim_not_found (find_by_claim (env.hash_token input.token) t.companies)) _
            (λ h. ground (arith, h)) (λ c found. take_over-broken env input c t unique))))

-- Whatever creations of shippers (under ids without a row), issues of links and claims follow, where no
-- tax number is held by two live companies and no id by two rows, none is held twice afterwards, and
-- the index of the tax numbers stops no call: a claim never fails by it, since the other holder has been
-- folded in, and a creation is answered with a conflict only where the business number that it gives is
-- held, since the company with the tax number has been looked up and is shared.
pub Reach-unrefused :
    (lib : Library) (s t : ShipperTables) (env : Claims) (claimed : ClaimInput)
    (id transporter : Uuid) (input : CreateShipperInput)
    → Reach lib s t
    → Unique s.companies
    → Unique t.companies
      × (claim env claimed t ≢ fails broken)
      × ((any (holds_nib (tax_of input.nib)) t.companies ≡ true)
          ⊎ (create_shipper lib id transporter input t ≢ fails shipper_exists))
Reach-unrefused lib s t env claimed id transporter input reach unique =
    let once = Reach-Unique reach unique in
    (
      once,
      claim-broken env claimed t once,
      elim (Bool-cases (any (holds_nib (tax_of input.nib)) t.companies)) [
        | inl held ↦ inl held
        | inr free ↦ inr (create_shipper-shipper_exists lib id transporter input t free)
      ],
    )

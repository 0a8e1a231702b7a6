-- ===== src/Shippers/Shared.antt =====
-- Transporters that know the tax number of a shipper reach one company.
use authentication_service.Prelude.{
  String, true, false, not, ◌&&◌, ◌||◌, List, [], ◌∷◌, ◌++◌, any, none, some, ◌==◌, eq_refl,
  nat_eq_iff, ◌≡◌, arith, inl, inr, Option-cases, any-append,
}
use authentication_service.Prelude.Text.{trim_space}
use authentication_service.Prelude.Attempt.{yields, after_fail_if, after_or_fail}
use authentication_service.Abbrev.Derive.{before_create}
use authentication_service.Auth.Store.{Uuid}
use authentication_service.Auth.Sessions.{first}
use authentication_service.Merge.Companies.{Link, is_link}
use authentication_service.Shippers.Tables.{Customer, ShipperTables, tax_of, holds_tax, find_by_tax}
use authentication_service.Shippers.Record.{
  CreateShipperInput, CreateShipperResult, Library, link, new_customer, is_refused, insert_customer,
  link_or_insert, or_company, is_given, create_shipper,
}

link-any : (tr sh : Uuid) (ls : List Link) → any (is_link tr sh) (link tr sh ls) ≡ true
unfolding link is_link
link-any tr sh ls = ground (
  arith,
  any-append (is_link tr sh) ls (record { transporter = tr; shipper = sh } ∷ []),
  nat_eq_iff tr tr,
  nat_eq_iff sh sh,
)

link-keeps :
    (tr sh other company : Uuid) (ls : List Link)
    → any (is_link other company) ls ≡ true
    → any (is_link other company) (link tr sh ls) ≡ true
unfolding link
link-keeps tr sh other company ls h = ground (
  arith,
  h,
  any-append (is_link other company) ls (record { transporter = tr; shipper = sh } ∷ []),
)

find_by_tax-append :
    (tax : String) (cs : List Customer) (c : Customer)
    → find_by_tax tax cs ≡ none
    → holds_tax tax c ≡ true
    → find_by_tax tax (cs ++ c ∷ []) ≡ some c
unfolding find_by_tax first
find_by_tax-append tax [] c missing holds = ground (arith, holds)
find_by_tax-append tax (d ∷ cs) c missing holds =
    ground (arith, missing, find_by_tax-append tax cs c)

module _ (lib : Library) where
  create_shipper-goes_on :
      (id transporter : Uuid) (input : CreateShipperInput) (t after : ShipperTables)
      (r : CreateShipperResult)
      → create_shipper lib id transporter input t ≡ yields (r, after)
      → link_or_insert lib
          (find_by_tax (tax_of input.npwp) t.companies)
          id
          transporter
          (trim_space input.name)
          input
          t
        ≡ yields (r, after)
  unfolding create_shipper
  create_shipper-goes_on id transporter input t after r h =
      let (_, h) = after_fail_if (trim_space input.name == "") _ _ (r, after) h in
      let (_, h) =
        after_fail_if
          (not (
            or_company input.entity_type == "company"
            || or_company input.entity_type == "personal"))
          _ _ (r, after) h in
      let (_, h) =
        after_fail_if (or_company input.entity_type == "personal" && is_given input.nib) _ _
          (r, after) h in
      h

  -- What the transaction leaves: the company can be found by its tax number, and is linked.
  link_or_insert-found :
      (id transporter : Uuid) (name : String) (input : CreateShipperInput) (t after : ShipperTables)
      (r : CreateShipperResult)
      → link_or_insert lib (find_by_tax (tax_of input.npwp) t.companies) id transporter name input t
        ≡ yields (r, after)
      → (tax_of input.npwp == "") ≡ false
      → (find_by_tax (tax_of input.npwp) after.companies ≡ some r.company)
        × (any (is_link transporter r.company.id) after.links ≡ true)
  unfolding link_or_insert insert_customer new_customer holds_tax
  link_or_insert-found id transporter name input t after r h given =
      elim (Option-cases (find_by_tax (tax_of input.npwp) t.companies)) [
        | inl missing ↦
            let h = rw missing at h in
            let (code, _, h) =
              after_or_fail _
                (before_create lib.lower lib.upper lib.is_word name input.abbreviation) _ (r, after)
                h in
            let made = new_customer id transporter name code input in
            let (_, h) = after_fail_if (is_refused made t.companies) _ _ (r, after) h in
            let is : r.company ≡ made = ground (arith, h) in
            let companies : after.companies ≡ (t.companies ++ made ∷ []) = ground (arith, h) in
            let links : after.links ≡ link transporter id t.links = ground (arith, h) in
            (
              rw (companies, is)
                  (find_by_tax-append (tax_of input.npwp) t.companies made missing
                    (ground (arith, given, eq_refl (tax_of input.npwp)))),
              rw (is, links) (link-any transporter id t.links),
            )
        | inr (known, found) ↦
            let h = rw found at h in
            let is : r.company ≡ known = ground (arith, h) in
            let companies : after.companies ≡ t.companies = ground (arith, h) in
            let links : after.links ≡ link transporter known.id t.links = ground (arith, h) in
            (rw (companies, is) found, rw (is, links) (link-any transporter known.id t.links))
      ]

  known-left :
      (known : Customer) (id transporter : Uuid) (name : String) (input : CreateShipperInput)
      (t after : ShipperTables) (r : CreateShipperResult)
      → link_or_insert lib (some known) id transporter name input t ≡ yields (r, after)
      → (r.company ≡ known)
        × (r.existing ≡ true)
        × (after.companies ≡ t.companies)
        × (after.links ≡ link transporter known.id t.links)
  unfolding link_or_insert
  known-left known id transporter name input t after r h =
      (ground (arith, h), ground (arith, h), ground (arith, h), ground (arith, h))

-- After a transporter has recorded a shipper with a tax number, another one that records a shipper with
-- the same number, however it writes it, gets that company as one that exists: no company is added, and
-- both are linked to it.
pub create_shipper-shared :
    (lib : Library) (id id' transporter other : Uuid) (input again : CreateShipperInput)
    (t after later : ShipperTables) (r r' : CreateShipperResult)
    → create_shipper lib id transporter input t ≡ yields (r, after)
    → create_shipper lib id' other again after ≡ yields (r', later)
    → (tax_of input.npwp == "") ≡ false
    → tax_of again.npwp ≡ tax_of input.npwp
    → (r'.company ≡ r.company)
      × (r'.existing ≡ true)
      × (later.companies ≡ after.companies)
      × (any (is_link transporter r.company.id) later.links ≡ true)
      × (any (is_link other r.company.id) later.links ≡ true)
create_shipper-shared lib id id' transporter other input again t after later r r' h h' given same =
    let (found, linked) =
      link_or_insert-found lib id transporter (trim_space input.name) input t after r
        (create_shipper-goes_on lib id transporter input t after r h) given in
    let h' = create_shipper-goes_on lib id' other again after later r' h' in
    let (is, exists, companies, links) =
      known-left lib r.company id' other (trim_space again.name) again after later r'
        (rw (same, found) at h') in
    (
      is,
      exists,
      companies,
      rw links (link-keeps other r.company.id transporter r.company.id after.links linked),
      rw links (link-any other r.company.id after.links),
    )

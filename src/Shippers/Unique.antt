-- ===== src/Shippers/Unique.antt =====
-- One live company for each tax number.
use authentication_service.Prelude.{
  ℕ, ◌+◌, ◌≤◌, String, Bool, true, false, not, ◌&&◌, ◌||◌, List, [], ◌∷◌, ◌++◌, map, any, keep,
  length, Option, none, some, ◌==◌, eq_iff, nat_eq, nat_eq_iff, if◌then◌else◌, ◌≡◌, ◌≢◌, refl, ap,
  arith, inl, inr, Bool-cases, Option-cases,
}
use authentication_service.Prelude.Text.{trim_space}
use authentication_service.Prelude.Attempt.{yields, after_fail_if, after_or_fail}
use authentication_service.Abbrev.Derive.{before_create}
use authentication_service.Auth.Store.{Uuid}
use authentication_service.Revocation.Held.{Time}
use authentication_service.Shippers.Tables.{
  Customer, ShipperTables, normalise_tax_id, tax_of, holds_tax, find_by_tax,
}
use authentication_service.Shippers.Record.{
  CreateShipperInput, CreateShipperResult, Library, new_customer, is_refused, insert_customer,
  link_or_insert, or_company, is_given, create_shipper,
}
use authentication_service.Shippers.Claiming.{
  ClaimInput, ClaimResult, Claims, find_other, offer, claim_token_ttl, issue_claim_link, fold_row,
  fold_in, fold_duplicate, consume, record_tax, claim,
}
use authentication_service.Shippers.Claimed.{take_over-left, claim-take_over}

-- The number of live companies that hold a tax number, and of rows with an id.
abbrev pub holders : String → List Customer → ℕ
holders tax cs = length (keep (holds_tax tax) cs)

abbrev pub rows_of : Uuid → List Customer → ℕ
rows_of id cs = length (keep (λ c. nat_eq c.id id) cs)

-- No tax number is held twice, and no id is used twice.
abbrev pub Unique : List Customer → Type 0
Unique cs = ((tax : String) → holders tax cs ≤ 1) × ((id : Uuid) → rows_of id cs ≤ 1)

count-append :
    (p : Customer → Bool) (cs : List Customer) (c : Customer)
    → length (keep p (cs ++ c ∷ [])) ≡ length (keep p cs) + (if p c then 1 else 0)
count-append p [] c = ground arith
count-append p (d ∷ cs) c = ground (arith, count-append p cs c)

count-none : (p : Customer → Bool) (cs : List Customer) → any p cs ≡ false → length (keep p cs) ≡ 0
count-none p [] h = refl
count-none p (c ∷ cs) h = ground (arith, h, count-none p cs)

holds_tax-tax_of : (tax : String) (c : Customer) → holds_tax tax c ≡ true → tax ≡ tax_of c.npwp
unfolding holds_tax
holds_tax-tax_of tax c h = ground (arith, h, eq_iff (tax_of c.npwp) tax)

insert-Unique :
    (cs : List Customer) (c : Customer)
    → is_refused c cs ≡ false
    → rows_of c.id cs ≡ 0
    → Unique cs
    → Unique (cs ++ c ∷ [])
unfolding is_refused
insert-Unique cs c free fresh (taxes, ids) = (
  λ tax. elim (Bool-cases (holds_tax tax c)) [
    | inl holds ↦
        let is = holds_tax-tax_of tax c holds in
        let zero = count-none (holds_tax (tax_of c.npwp)) cs (ground (arith, free)) in
        rw (count-append (holds_tax tax) cs c, holds, is) (ground (arith, zero))
    | inr other ↦ rw (count-append (holds_tax tax) cs c, other) (ground (arith, taxes tax))
  ],
  λ id. rw (count-append (λ d. nat_eq d.id id) cs c) (
      ground
        (arith, ids id, fresh, nat_eq_iff c.id id, ap (λ k. rows_of k cs) {x = c.id} {y = id})),
)

fold_row-id : (survivor loser : Uuid) (c : Customer) → (fold_row survivor loser c).id ≡ c.id
unfolding fold_row
fold_row-id survivor loser c = ground arith

consume-id : (npwp : String) (id : Uuid) (c : Customer) → (consume npwp id c).id ≡ c.id
unfolding consume
consume-id npwp id c = ground arith

rows_of-map :
    (f : Customer → Customer) (id : Uuid) (cs : List Customer)
    → ((c : Customer) → (f c).id ≡ c.id)
    → rows_of id (map f cs) ≡ rows_of id cs
rows_of-map f id [] keeps = refl
rows_of-map f id (c ∷ cs) keeps = ground (arith, keeps c, rows_of-map f id cs keeps)

offer-id : (hash : String) (at : Time) (id : Uuid) (c : Customer) → (offer hash at id c).id ≡ c.id
unfolding offer
offer-id hash at id c = ground arith

holders-offer :
    (hash : String) (at : Time) (id : Uuid) (tax : String) (cs : List Customer)
    → holders tax (map (offer hash at id) cs) ≡ holders tax cs
unfolding offer holds_tax
holders-offer hash at id tax [] = refl
holders-offer hash at id tax (c ∷ cs) = ground (arith, holders-offer hash at id tax cs)

pub holders-fold_row :
    (survivor loser : Uuid) (tax : String) (cs : List Customer)
    → holders tax (map (fold_row survivor loser) cs) ≤ holders tax cs
unfolding fold_row holds_tax
holders-fold_row survivor loser tax [] = omega arith
holders-fold_row survivor loser tax (c ∷ cs) =
    ground (arith, holders-fold_row survivor loser tax cs)

pub fold_duplicate-Unique :
    (id : Uuid) (other : Option Customer) (t folded : ShipperTables)
    → fold_duplicate id other t ≡ yields folded
    → Unique t.companies
    → Unique folded.companies
unfolding fold_duplicate fold_in
fold_duplicate-Unique id none t folded h unique =
    let same : folded ≡ t = ground (arith, h) in rw same unique
fold_duplicate-Unique id (some other) t folded h (taxes, ids) =
    let is : folded.companies ≡ map (fold_row id other.id) t.companies = ground (arith, h) in
    rw is (
      λ tax. omega (arith, holders-fold_row id other.id tax t.companies, taxes tax),
      λ k. rw (rows_of-map (fold_row id other.id) k t.companies (fold_row-id id other.id)) (ids k),
    )

-- A number other than the one recorded has no new holder, and that one only the company.
holders-consume :
    (npwp : String) (id : Uuid) (tax : String) (cs : List Customer)
    → tax ≢ normalise_tax_id npwp
    → holders tax (map (consume npwp id) cs) ≤ holders tax cs
unfolding consume holds_tax
holders-consume npwp id tax [] other = omega arith
holders-consume npwp id tax (c ∷ cs) other =
    ground (arith, other, eq_iff (normalise_tax_id npwp) tax, holders-consume npwp id tax cs other)

holders-recorded :
    (npwp : String) (id : Uuid) (cs : List Customer)
    → any (λ c. holds_tax (normalise_tax_id npwp) c && not (nat_eq c.id id)) cs ≡ false
    → holders (normalise_tax_id npwp) (map (consume npwp id) cs) ≤ rows_of id cs
unfolding consume holds_tax
holders-recorded npwp id [] free = omega arith
holders-recorded npwp id (c ∷ cs) free = ground (arith, free, holders-recorded npwp id cs)

record_tax-Unique :
    (npwp : String) (id : Uuid) (cs after : List Customer)
    → record_tax npwp id cs ≡ yields after
    → Unique cs
    → Unique after
unfolding record_tax
record_tax-Unique npwp id cs after h (taxes, ids) =
    let (free, h) =
      after_fail_if (any (λ c. holds_tax (normalise_tax_id npwp) c && not (nat_eq c.id id)) cs) _ _
        after h in
    let is : after ≡ map (consume npwp id) cs = ground (arith, h) in
    rw is (
      λ tax. elim (Bool-cases (tax == normalise_tax_id npwp)) [
        | inl same ↦
            rw ((eq_iff tax (normalise_tax_id npwp)).0 same)
              (omega (arith, holders-recorded npwp id cs free, ids id))
        | inr other ↦ omega (
          arith,
          holders-consume npwp id tax cs
              (ground (arith, other, eq_iff tax (normalise_tax_id npwp))),
          taxes tax,
        )
      ],
      λ k. rw (rows_of-map (consume npwp id) k cs (consume-id npwp id)) (ids k),
    )

claim-Unique :
    (env : Claims) (input : ClaimInput) (t after : ShipperTables) (r : ClaimResult)
    → claim env input t ≡ yields (r, after)
    → Unique t.companies
    → Unique after.companies
claim-Unique env input t after r h unique =
    let (c, _, h) = claim-take_over env input t after r h in
    let (_, folded, cs, _, folds, records, _, _, companies, _, _, _, _, _) =
      take_over-left env input c t after r h in
    let once =
      fold_duplicate-Unique c.id (find_other (normalise_tax_id input.npwp) c.id t.companies) t
        folded folds unique in
    rw companies (record_tax-Unique input.npwp c.id folded.companies cs records once)

-- What CreateShipper leaves: the companies as they were, or one more.
insert_customer-Unique :
    (lib : Library) (id transporter : Uuid) (name : String) (input : CreateShipperInput)
    (t after : ShipperTables) (r : CreateShipperResult)
    → insert_customer lib id transporter name input t ≡ yields (r, after)
    → rows_of id t.companies ≡ 0
    → Unique t.companies
    → Unique after.companies
unfolding insert_customer new_customer
insert_customer-Unique lib id transporter name input t after r h fresh unique =
    let (code, _, h) =
      after_or_fail _ (before_create lib.lower lib.upper lib.is_word name input.abbreviation) _
        (r, after) h in
    let made = new_customer id transporter name code input in
    let (free, h) = after_fail_if (is_refused made t.companies) _ _ (r, after) h in
    let is : after.companies ≡ (t.companies ++ made ∷ []) = ground (arith, h) in
    rw is (insert-Unique t.companies made free fresh unique)

create_shipper-Unique :
    (lib : Library) (id transporter : Uuid) (input : CreateShipperInput) (t after : ShipperTables)
    (r : CreateShipperResult)
    → create_shipper lib id transporter input t ≡ yields (r, after)
    → rows_of id t.companies ≡ 0
    → Unique t.companies
    → Unique after.companies
unfolding create_shipper link_or_insert
create_shipper-Unique lib id transporter input t after r h fresh unique =
    let (_, h) = after_fail_if (trim_space input.name == "") _ _ (r, after) h in
    let (_, h) =
      after_fail_if
        (not
          (or_company input.entity_type == "company" || or_company input.entity_type == "personal"))
        _ _ (r, after) h in
    let (_, h) =
      after_fail_if (or_company input.entity_type == "personal" && is_given input.nib) _ _
        (r, after) h in
    elim (Option-cases (find_by_tax (tax_of input.npwp) t.companies)) [
      | inl missing ↦
          insert_customer-Unique lib id transporter (trim_space input.name) input t after r
            (rw missing at h) fresh unique
      | inr (known, found) ↦
          let h = rw found at h in
          let same : after.companies ≡ t.companies = ground (arith, h) in rw same unique
    ]

pub issue_claim_link-Unique :
    (env : Claims) (company actor : Uuid) (t after : ShipperTables) (link : String × Time)
    → issue_claim_link env company actor t ≡ yields (link, after)
    → Unique t.companies
    → Unique after.companies
unfolding issue_claim_link
issue_claim_link-Unique env company actor t after link h (taxes, ids) =
    let hash = env.hash_token env.token in
    let is : after.companies ≡ map (offer hash (env.now + claim_token_ttl) company) t.companies =
      ground (arith, h) in
    rw is (
      λ tax.
          rw (holders-offer hash (env.now + claim_token_ttl) company tax t.companies) (taxes tax),
      λ id.
          rw
            (rows_of-map (offer hash (env.now + claim_token_ttl) company) id t.companies
              (offer-id hash (env.now + claim_token_ttl) company))
            (ids id),
    )

-- The calls that write, those that fail left out: they leave the tables as they are.
pub data Step (lib : Library) : ShipperTables → ShipperTables → Type 0 where
  creates :
      {t after : ShipperTables} (id transporter : Uuid) (input : CreateShipperInput)
      (r : CreateShipperResult)
      → rows_of id t.companies ≡ 0
      → create_shipper lib id transporter input t ≡ yields (r, after)
      → Step lib t after
  issues :
      {t after : ShipperTables} (env : Claims) (company actor : Uuid) (link : String × Time)
      → issue_claim_link env company actor t ≡ yields (link, after)
      → Step lib t after
  claims :
      {t after : ShipperTables} (env : Claims) (input : ClaimInput) (r : ClaimResult)
      → claim env input t ≡ yields (r, after)
      → Step lib t after

pub data Reach (lib : Library) (s : ShipperTables) : ShipperTables → Type 0 where
  here : Reach lib s s
  next : {t after : ShipperTables} → Reach lib s t → Step lib t after → Reach lib s after

Step-Unique :
    {lib : Library} {t after : ShipperTables}
    → Step lib t after
    → Unique t.companies
    → Unique after.companies
Step-Unique {lib} {t} {after} (creates id transporter input r fresh h) =
    create_shipper-Unique lib id transporter input t after r h fresh
Step-Unique {lib} {t} {after} (issues env company actor link h) =
    issue_claim_link-Unique env company actor t after link h
Step-Unique {lib} {t} {after} (claims env input r h) = claim-Unique env input t after r h

-- Whatever creations of shippers (under ids without a row), issues of links and claims follow, no tax
-- number gets a second holder.
pub Reach-Unique :
    {lib : Library} {s t : ShipperTables} → Reach lib s t → Unique s.companies → Unique t.companies
Reach-Unique here unique = unique
Reach-Unique (next r step) unique = Step-Unique step (Reach-Unique r unique)

-- ===== src/Shippers/Offered.antt =====
-- A link that is issued can be used.
use authentication_service.Prelude.{
  ◌+◌, ◌≤◌, String, true, false, not, ◌&&◌, ◌||◌, List, [], ◌∷◌, map, any, none, some, ◌==◌,
  eq_refl, nat_eq_iff, if◌then◌else◌, ◌≡◌, refl, sym, ap, ◌∙◌, arith, inl, inr, Bool-cases,
  Option-cases,
}
use authentication_service.Prelude.Text.{trim_space}
use authentication_service.Prelude.Attempt.{
  yields, fails, or_fail, after_fail_if, Attempt-cases, fail_if-passes, yields-passes,
}
use authentication_service.Revocation.Held.{Time}
use authentication_service.Auth.Store.{Uuid, claim_completed}
use authentication_service.Auth.Sessions.{first}
use authentication_service.Auth.Account.{is_strong}
use authentication_service.Merge.Companies.{copy_links, drop_links}
use authentication_service.Users.Directory.{Directory}
use authentication_service.Users.Registration.{ensure_administrator}
use authentication_service.Shippers.Tables.{
  Customer, ShipperTables, claim_not_found, claim_expired, already_claimed, npwp_required,
  identifier_required, weak_password, normalise_tax_id, find_by_claim, is_live,
}
use authentication_service.Shippers.Claiming.{
  ClaimInput, ClaimResult, Claims, noted, has_people, has_lapsed, id_of, find_other, fold_row,
  fold_in, fold_duplicate, consume, record_tax, is_registered, new_claimant, settle, take_over,
  claim, offer, claim_token_ttl, issue_claim_link, preview_claim,
}
use authentication_service.Shippers.Claimed.{fold_duplicate-directory}
use authentication_service.Shippers.Index.{other-none, freed}
use authentication_service.Shippers.Unique.{Unique, issue_claim_link-Unique}

-- The company of a link, once it is issued with a token that is in no use.
offered-found :
    (hash : String) (at : Time) (id : Uuid) (cs : List Customer)
    → find_by_claim hash cs ≡ none
    → any (is_live id) cs ≡ true
    → (x : Customer) × (first (is_live id) cs ≡ some x)
      × (x.id ≡ id)
      × (find_by_claim hash (map (offer hash at id) cs) ≡ some (offer hash at id x))
      × (offer hash at id x ≡ record x { claim_token_hash = some hash; claim_expires_at = some at })
unfolding find_by_claim first is_live offer
offered-found hash at id [] fresh live = absurd (cc)
offered-found hash at id (c ∷ cs) fresh live = elim (Bool-cases (is_live id c)) [
  | inl here ↦ (
    c,
    ground (arith, here),
    ground (arith, here, nat_eq_iff c.id id),
    ground (arith, here, eq_refl hash),
    ground (arith, here),
  )
  | inr other ↦
      let (x, is, same, found, offers) =
        offered-found hash at id cs (ground (arith, fresh)) (ground (arith, live, other)) in
      (x, ground (arith, other, is), same, ground (arith, other, fresh, found), offers)
]

-- What holds of no row of a list is found in none.
module _ (env : Claims) where
  settle-yields :
      (input : ClaimInput) (company : Uuid) (d : Directory)
      → ((role : Uuid)
          → is_registered env.fold (new_claimant env input company role) d.store.users ≡ false)
      → (role : Uuid) × (after : Directory) × (settle env input company d ≡ yields (role, after))
  unfolding settle
  settle-yields input company d free = elim (Attempt-cases (settle env input company d)) [
    | inl (a, is) ↦ (a.0, a.1, is)
    | inr (e, is) ↦
        absurd (ground (arith, is, free (ensure_administrator env.role_id company d.roles).0))
  ]

  folded-free :
      (npwp : String) (id : Uuid) (t : ShipperTables)
      → Unique t.companies
      → ((o : Customer)
          → find_other (normalise_tax_id npwp) id t.companies ≡ some o
          → has_people o.id t.directory ≡ false)
      → (folded : ShipperTables) × (cs : List Customer) × (fold_duplicate id
            (find_other (normalise_tax_id npwp) id t.companies)
            t
          ≡ yields folded)
        × (record_tax npwp id folded.companies ≡ yields cs)
  unfolding fold_duplicate fold_in record_tax
  folded-free npwp id t (taxes, _) empty =
      elim (Option-cases (find_other (normalise_tax_id npwp) id t.companies)) [
        | inl missing ↦ rw missing (
          t,
          map (consume npwp id) t.companies,
          refl,
          ground (arith, other-none (normalise_tax_id npwp) id t.companies missing),
        )
        | inr (o, found) ↦
            let free =
              freed (normalise_tax_id npwp) id t.companies o found
                (taxes (normalise_tax_id npwp)) in
            rw found (
              record t {
                companies = map (fold_row id o.id) t.companies;
                links = drop_links o.id (copy_links id o.id t.links t.links);
              },
              map (consume npwp id) (map (fold_row id o.id) t.companies),
              ground (arith, empty o found),
              ground (arith, free),
            )
      ]

  take_over-yields :
      (input : ClaimInput) (c : Customer) (t folded : ShipperTables) (cs : List Customer)
      (role : Uuid) (d : Directory)
      → has_lapsed env.now c.claim_expires_at ≡ false
      → has_people c.id t.directory ≡ false
      → fold_duplicate c.id (find_other (normalise_tax_id input.npwp) c.id t.companies) t
        ≡ yields folded
      → record_tax input.npwp c.id folded.companies ≡ yields cs
      → settle env input c.id folded.directory ≡ yields (role, d)
      → take_over env input c t
        ≡ yields (
          record {
            company_id = c.id;
            user_id = env.user_id;
            role_id = role;
            duplicate_of = id_of (find_other (normalise_tax_id input.npwp) c.id t.companies);
          },
          record folded { companies = cs; directory = noted (claim_completed env.user_id c.id) d },
        )
  unfolding take_over
  take_over-yields input c t folded cs role d timely nobody folds records settles =
      fail_if-passes (has_lapsed env.now c.claim_expires_at) claim_expired _ timely
      ∙ fail_if-passes (has_people c.id t.directory) already_claimed _ nobody
      ∙ yields-passes
          (fold_duplicate c.id (find_other (normalise_tax_id input.npwp) c.id t.companies) t) _
          folded folds
      ∙ yields-passes (record_tax input.npwp c.id folded.companies) _ cs records
      ∙ yields-passes (settle env input c.id folded.directory) _ (role, d) settles

  claim-goes_on :
      (input : ClaimInput) (c : Customer) (t : ShipperTables)
      → (trim_space input.npwp == "" || normalise_tax_id input.npwp == "") ≡ false
      → (input.email == "" && (input.phone == "" && input.username == "")) ≡ false
      → is_strong input.password ≡ true
      → find_by_claim (env.hash_token input.token) t.companies ≡ some c
      → claim env input t ≡ take_over env input c t
  unfolding claim
  claim-goes_on input c t npwp named strong found =
      fail_if-passes (trim_space input.npwp == "" || normalise_tax_id input.npwp == "")
        npwp_required _ npwp
      ∙ fail_if-passes (input.email == "" && (input.phone == "" && input.username == ""))
          identifier_required _ named
      ∙ fail_if-passes (not (is_strong input.password)) weak_password _ (ap not strong)
      ∙ yields-passes
          (or_fail claim_not_found (find_by_claim (env.hash_token input.token) t.companies)) _ c
          (ap (or_fail claim_not_found) found)

  -- A claim goes through: where a tax number, an identifier that is in no use and a good password are
  -- given, the link is in time, the company has nobody and neither has the other that holds the number.
  claim-yields :
      (input : ClaimInput) (c : Customer) (t : ShipperTables)
      → (trim_space input.npwp == "" || normalise_tax_id input.npwp == "") ≡ false
      → (input.email == "" && (input.phone == "" && input.username == "")) ≡ false
      → is_strong input.password ≡ true
      → find_by_claim (env.hash_token input.token) t.companies ≡ some c
      → has_lapsed env.now c.claim_expires_at ≡ false
      → has_people c.id t.directory ≡ false
      → ((role : Uuid)
          → is_registered env.fold (new_claimant env input c.id role) t.directory.store.users
            ≡ false)
      → Unique t.companies
      → ((o : Customer)
          → find_other (normalise_tax_id input.npwp) c.id t.companies ≡ some o
          → has_people o.id t.directory ≡ false)
      → (r : ClaimResult) × (after : ShipperTables) × (claim env input t ≡ yields (r, after))
        × (r.company_id ≡ c.id)
        × (r.duplicate_of ≡ id_of (find_other (normalise_tax_id input.npwp) c.id t.companies))
  claim-yields input c t npwp named strong found timely nobody free unique empty =
      let (folded, cs, folds, records) = folded-free input.npwp c.id t unique empty in
      let same =
        fold_duplicate-directory env c.id
          (find_other (normalise_tax_id input.npwp) c.id t.companies) t folded folds in
      let (role, d, settles) = settle-yields input c.id folded.directory (rw same free) in
      (
        _,
        _,
        claim-goes_on input c t npwp named strong found
            ∙ take_over-yields input c t folded cs role d timely nobody folds records settles,
        refl,
        refl,
      )

-- What a link that is issued has found, and leaves.
issue_claim_link-left :
    (env : Claims) (company actor : Uuid) (t after : ShipperTables) (token : String)
    (expires : Time)
    → issue_claim_link env company actor t ≡ yields ((token, expires), after)
    → (token ≡ env.token)
      × (has_people company t.directory ≡ false)
      × (any (is_live company) t.companies ≡ true)
      × (after.companies ≡ map (offer (env.hash_token token) expires company) t.companies)
      × (after.directory.store.users ≡ t.directory.store.users)
unfolding issue_claim_link
issue_claim_link-left env company actor t after token expires h =
    let (nobody, h) =
      after_fail_if (has_people company t.directory) _ _ ((token, expires), after) h in
    let (live, h) =
      after_fail_if (not (any (is_live company) t.companies)) _ _ ((token, expires), after) h in
    let is : env.token ≡ token = ground (arith, h) in
    let at : (env.now + claim_token_ttl) ≡ expires = ground (arith, h) in
    let offered : map (offer (env.hash_token env.token) (env.now + claim_token_ttl) company)
          t.companies
        ≡ after.companies =
      ground (arith, h) in
    (sym is, nobody, ground (arith, live), sym (rw (is, at) at offered), ground (arith, h))

-- A link that IssueClaimLink has answered with claims the company that it was issued for, until it
-- expires: where its token was in no use, the claim names it with a tax number, an identifier in no use
-- and a good password, no tax number is held twice, and another company with the number has nobody, the
-- claim succeeds, for the company of the link; and a preview of the link shows the company's name, when
-- it has one.
pub issue_claim_link-claim :
    (env later : Claims) (company actor : Uuid) (input : ClaimInput) (t after : ShipperTables)
    (expires : Time)
    → issue_claim_link env company actor t ≡ yields ((input.token, expires), after)
    → find_by_claim (env.hash_token input.token) t.companies ≡ none
    → later.hash_token ≡ env.hash_token
    → later.now ≤ expires
    → (trim_space input.npwp == "" || normalise_tax_id input.npwp == "") ≡ false
    → (input.email == "" && (input.phone == "" && input.username == "")) ≡ false
    → is_strong input.password ≡ true
    → ((role : Uuid)
        → is_registered later.fold (new_claimant later input company role) t.directory.store.users
          ≡ false)
    → Unique t.companies
    → ((o : Customer)
        → find_other (normalise_tax_id input.npwp) company after.companies ≡ some o
        → has_people o.id t.directory ≡ false)
    → (c : Customer) × (r : ClaimResult) × (final : ShipperTables) × (first
          (is_live company)
          t.companies
        ≡ some c)
      × (claim later input after ≡ yields (r, final))
      × (r.company_id ≡ company)
      × (preview_claim later input.token after
          ≡ (if c.name == "" then fails claim_not_found else yields c.name))
unfolding preview_claim
issue_claim_link-claim env later company actor input t after expires issued fresh hashes timely npwp
      named strong free unique empty =
    let (_, nobody, live, companies, users) =
      issue_claim_link-left env company actor t after input.token expires issued in
    let once =
      issue_claim_link-Unique env company actor t after (input.token, expires) issued unique in
    let (x, is, same, found, offers) =
      offered-found (env.hash_token input.token) expires company t.companies fresh live in
    let c = offer (env.hash_token input.token) expires company x in
    let there : find_by_claim (later.hash_token input.token) after.companies ≡ some c =
      rw (hashes, companies) found in
    let id : c.id ≡ company = rw offers same in
    let at : c.claim_expires_at ≡ some expires = rw offers refl in
    let name : c.name ≡ x.name = rw offers refl in
    let in_time : has_lapsed later.now c.claim_expires_at ≡ false =
      rw at (ground (arith, timely)) in
    let (r, final, claims, owner, _) =
      claim-yields later input c after npwp named strong there in_time (rw (id, users) nobody)
        (λ role. rw (id, users) (free role)) once (λ o. rw (id, users) (empty o)) in
    (
      x,
      r,
      final,
      is,
      claims,
      owner ∙ id,
      yields-passes
            (or_fail claim_not_found (find_by_claim (later.hash_token input.token) after.companies))
            _ c (ap (or_fail claim_not_found) there)
          ∙ ground (arith, name, in_time),
    )

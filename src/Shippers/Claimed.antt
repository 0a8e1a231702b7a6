-- ===== src/Shippers/Claimed.antt =====
-- A company is claimed once, and what its first person finds.
use authentication_service.Prelude.{
  false, not, ◌&&◌, ◌||◌, List, Option, none, some, ◌==◌, ◌≡◌, sym, ap, ◌∙◌, arith,
}
use authentication_service.Prelude.Text.{trim_space}
use authentication_service.Prelude.Attempt.{
  Attempt, yields, fails, after_yields, after_fail_if, after_or_fail,
}
use authentication_service.Auth.Store.{Uuid}
use authentication_service.Auth.Account.{is_strong}
use authentication_service.Users.Directory.{Directory}
use authentication_service.Shippers.Tables.{
  Customer, ShipperTables, ShipperError, normalise_tax_id, find_by_claim,
}
use authentication_service.Shippers.Claiming.{
  ClaimInput, ClaimResult, Claims, has_people, has_lapsed, find_other, fold_duplicate, fold_in,
  record_tax, settle, taken, id_of, take_over, claim,
}

module _ (env : Claims) where
  yields-injective :
      (a b : ClaimResult × ShipperTables)
      → Path (Attempt ShipperError (ClaimResult × ShipperTables)) (yields a) (yields b)
      → a ≡ b
  yields-injective a b h = ap (λ m. elim m [ yields x ↦ x | fails e ↦ a ]) h

  taken-left :
      (id : Uuid) (duplicate : Option Uuid) (folded after : ShipperTables) (cs : List Customer)
      (settled : Uuid × Directory) (r : ClaimResult)
      → taken env id duplicate folded cs settled ≡ (r, after)
      → (settled.0 ≡ r.role_id)
        × (r.company_id ≡ id)
        × (after.companies ≡ cs)
        × (after.links ≡ folded.links)
        × (after.directory.store.users ≡ settled.1.store.users)
        × (after.directory.roles ≡ settled.1.roles)
        × (after.directory.modules ≡ settled.1.modules)
        × (after.directory.settings ≡ settled.1.settings)
  taken-left id duplicate folded after cs settled r h = (
    ap (λ x. x.0.role_id) h,
    sym (ap (λ x. x.0.company_id) h),
    sym (ap (λ x. x.1.companies) h),
    sym (ap (λ x. x.1.links) h),
    sym (ap (λ x. x.1.directory.store.users) h),
    sym (ap (λ x. x.1.directory.roles) h),
    sym (ap (λ x. x.1.directory.modules) h),
    sym (ap (λ x. x.1.directory.settings) h),
  )

  -- What a transaction that succeeds has found and leaves.
  pub take_over-left :
      (input : ClaimInput) (c : Customer) (t after : ShipperTables) (r : ClaimResult)
      → take_over env input c t ≡ yields (r, after)
      → (has_people c.id t.directory ≡ false)
        × (folded : ShipperTables) × (cs : List Customer) × (d : Directory) × (fold_duplicate c.id
              (find_other (normalise_tax_id input.npwp) c.id t.companies)
              t
            ≡ yields folded)
        × (record_tax input.npwp c.id folded.companies ≡ yields cs)
        × (settle env input c.id folded.directory ≡ yields (r.role_id, d))
        × (r.company_id ≡ c.id)
        × (after.companies ≡ cs)
        × (after.links ≡ folded.links)
        × (after.directory.store.users ≡ d.store.users)
        × (after.directory.roles ≡ d.roles)
        × (after.directory.modules ≡ d.modules)
        × (after.directory.settings ≡ d.settings)
  unfolding take_over
  take_over-left input c t after r h =
      let other = find_other (normalise_tax_id input.npwp) c.id t.companies in
      let (_, h) = after_fail_if (has_lapsed env.now c.claim_expires_at) _ _ (r, after) h in
      let (empty, h) = after_fail_if (has_people c.id t.directory) _ _ (r, after) h in
      let (folded, folds, h) = after_yields (fold_duplicate c.id other t) _ (r, after) h in
      let (cs, records, h) =
        after_yields (record_tax input.npwp c.id folded.companies) _ (r, after) h in
      let (settled, settles, h) =
        after_yields (settle env input c.id folded.directory) _ (r, after) h in
      let (role, is, companies, links, users, roles, modules, settings) =
        taken-left c.id (id_of other) folded after cs settled r
          (yields-injective (taken env c.id (id_of other) folded cs settled) (r, after) h) in
      (
        empty,
        folded,
        cs,
        settled.1,
        folds,
        records,
        settles ∙ ap (λ x. yields (x, settled.1)) role,
        is,
        companies,
        links,
        users,
        roles,
        modules,
        settings,
      )

  pub claim-take_over :
      (input : ClaimInput) (t after : ShipperTables) (r : ClaimResult)
      → claim env input t ≡ yields (r, after)
      → (c : Customer) × (find_by_claim (env.hash_token input.token) t.companies ≡ some c)
        × (take_over env input c t ≡ yields (r, after))
  unfolding claim
  claim-take_over input t after r h =
      let (_, h) =
        after_fail_if (trim_space input.npwp == "" || normalise_tax_id input.npwp == "") _ _
          (r, after) h in
      let (_, h) =
        after_fail_if (input.email == "" && (input.phone == "" && input.username == "")) _ _
          (r, after) h in
      let (_, h) = after_fail_if (not (is_strong input.password)) _ _ (r, after) h in
      after_or_fail _ (find_by_claim (env.hash_token input.token) t.companies) _ (r, after) h

  pub fold_duplicate-directory :
      (id : Uuid) (other : Option Customer) (t folded : ShipperTables)
      → fold_duplicate id other t ≡ yields folded
      → folded.directory ≡ t.directory
  unfolding fold_duplicate fold_in
  fold_duplicate-directory id none t folded h = ground (arith, h)
  fold_duplicate-directory id (some other) t folded h = ground (arith, h)

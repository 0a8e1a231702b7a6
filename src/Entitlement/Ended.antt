-- ===== src/Entitlement/Ended.antt =====
-- What a grant that fails leaves, and what a withdrawal ends.
use authentication_service.Prelude.{Option, ◌≡◌, refl, arith, Bool-cases, inl, inr}
use authentication_service.Prelude.Attempt.{Attempt, yields, fails, Attempt-cases}
use authentication_service.Authctx.Principal.{Principal}
use authentication_service.Auth.Store.{Uuid}
use authentication_service.Entitlement.Service.{
  GrantInput, Sales, SaleError, Market, allocate, write_module, allocate_fms_tenant_id, actor_uuid,
  needs_tenant, grantable, write_grant, grant_to, grant,
}

module _ (o : Market) where
  write_grant-fails :
      (input : GrantInput) (who : Attempt SaleError (Option Uuid)) (s after : Sales) (e : SaleError)
      → write_grant o input who s ≡ (fails e, after)
      → after ≡ s
  unfolding write_grant
  write_grant-fails input (fails x) s after e h = ground arith
  write_grant-fails input (yields actor) s after e h = elim (Bool-cases (o.fails write_module)) [
    | inl broken ↦ let h = rw broken at h in ground (arith, h)
    | inr works ↦ absurd (ground (arith, rw works at h))
  ]

  -- A grant that fails leaves the modules, the settings, the history, the audit log and the
  -- announcements as they were.
  pub grant-fails :
      (actor : Principal) (input : GrantInput) (s after : Sales) (e : SaleError)
      → grant o actor input s ≡ (fails e, after)
      → (after.modules ≡ s.modules)
        × (after.settings ≡ s.settings)
        × (after.history ≡ s.history)
        × (after.audit ≡ s.audit)
        × (after.announced ≡ s.announced)
  unfolding grant grant_to allocate_fms_tenant_id
  grant-fails actor input s after e h = elim (Attempt-cases (grantable o input s)) [
    | inr (x, failed) ↦
        let same : s ≡ after = ground (arith, h, failed) in
        rw (← same) (refl, refl, refl, refl, refl)
    | inl (c, found) ↦
        let h = rw found at h in
        elim (Bool-cases (needs_tenant input c)) [
          | inr has ↦
              let same =
                write_grant-fails input (actor_uuid o.parse_uuid actor) s after e (rw has at h) in
              rw same (refl, refl, refl, refl, refl)
          | inl needs ↦
              let h = rw needs at h in
              elim (Bool-cases (o.fails allocate)) [
                | inl broken ↦
                    let same : s ≡ after = ground (arith, h, broken) in
                    rw (← same) (refl, refl, refl, refl, refl)
                | inr works ↦
                    let same =
                      write_grant-fails input (actor_uuid o.parse_uuid actor)
                        (allocate_fms_tenant_id input.company_id s) after e (rw works at h) in
                    rw same (refl, refl, refl, refl, refl)
              ]
        ]
  ]

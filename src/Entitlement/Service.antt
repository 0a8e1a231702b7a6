-- ===== src/Entitlement/Service.antt =====
-- EntitlementService (internal/services/entitlement_service.go), with Grant and History of
-- ModuleRepository. A call that fails keeps what it has written before. The dates of a request are
-- whole days. The quotas and the note of a row are not read by the entitlement and are left out.
use authentication_service.Prelude.{
  ℕ, ◌+◌, String, Bool, true, false, not, ◌&&◌, List, [], ◌∷◌, ◌++◌, any, map, keep, take,
  backwards, Option, none, some, ◌==◌, ltb, nat_eq, if◌then◌else◌,
}
use authentication_service.Prelude.Attempt.{Attempt, yields, fails, ◌>>◌, fail_if, or_fail}
use authentication_service.Prelude.Int.{ℤ, pos, negsuc}
use authentication_service.Authctx.Product.{product_fms}
use authentication_service.Authctx.Features.Registry.{
  is_known_product, is_sellable_feature, sellable_features,
}
use authentication_service.Authctx.Principal.{Principal}
use authentication_service.Revocation.Held.{Time, Event, company}
use authentication_service.Auth.Store.{Uuid, Company, is_nil}
use authentication_service.Auth.Sessions.{first}
use authentication_service.Access.Build.{AccessTables, active_for_company}
use authentication_service.Entitlement.Rows.{CompanyModule, CompanyProductSettings}
use authentication_service.Entitlement.Modules.{is_row_of, mode_for, revoke_module}

pub data ModuleAction : Type 0 where
  module_granted module_revoked : ModuleAction

-- CompanyModuleEvent, which is also what an entry of the audit log says.
pub record ModuleEvent : Type 0 where
  pub company_id : Uuid
  pub product : String
  pub name : String
  pub action : ModuleAction
  pub actor : Option Uuid

pub record GrantInput : Type 0 where
  pub company_id : Uuid
  pub product : String
  pub name : String
  pub valid_from : Option ℕ
  pub valid_until : Option ℕ

-- `next_tenant` is the next value of companies_fms_tenant_id_seq.
pub record Sales : Type 0 where
  pub companies : List Company
  pub next_tenant : ℕ
  pub modules : List CompanyModule
  pub settings : List CompanyProductSettings
  pub history : List ModuleEvent
  pub audit : List ModuleEvent
  pub announced : List Event

pub data SaleError : Type 0 where
  no_product not_sellable ends_first no_company no_module no_identity broken : SaleError

-- The calls that can fail for a reason of their own.
pub data SaleCall : Type 0 where
  read_company allocate write_module write_audit publish : SaleCall

pub record Market : Type 0 where
  pub now : Time
  pub today : ℕ
  pub fails : SaleCall → Bool
  pub uuid_text : Uuid → String
  pub parse_uuid : String → Option Uuid
  pub sort : List String → List String

abbrev pub ends_early : Option ℕ → Option ℕ → Bool
ends_early none until = false
ends_early (some from) none = false
ends_early (some from) (some until) = ltb until from

-- The row of a grant.
unfoldable pub granted_row : GrantInput → CompanyModule
granted_row input = record {
  company_id = input.company_id;
  product = input.product;
  name = input.name;
  enabled = true;
  valid_from = input.valid_from;
  valid_until = input.valid_until;
}

-- `ON CONFLICT (company_id, product, module) DO UPDATE`
unfoldable pub put_row : CompanyModule → List CompanyModule → List CompanyModule
unfolding is_row_of
put_row new rows =
    if any (is_row_of new.company_id new.product new.name) rows
    then map (λ row. if is_row_of new.company_id new.product new.name row then new else row) rows
    else rows ++ new ∷ []

-- `UPDATE companies SET fms_tenant_id = nextval(…) WHERE id = ? AND fms_tenant_id IS NULL`
unfoldable pub allocate_fms_tenant_id : Uuid → Sales → Sales
allocate_fms_tenant_id id s = record s {
  companies =
      map
        (λ c.
          if nat_eq c.id id && is_nil c.fms_tenant_id
          then record c { fms_tenant_id = some s.next_tenant }
          else c)
        s.companies;
  next_tenant = s.next_tenant + 1;
}

-- actorUUID
unfoldable pub actor_uuid : (String → Option Uuid) → Principal → Attempt SaleError (Option Uuid)
actor_uuid parse actor =
    if actor.user_id == ""
    then yields none
    else elim (parse actor.user_id) [ none ↦ fails no_identity | some id ↦ yields (some id) ]

abbrev pub needs_tenant : GrantInput → Company → Bool
needs_tenant input c = input.product == product_fms && is_nil c.fms_tenant_id

module _ (o : Market) where
  -- The checks of Grant on what is asked for.
  unfoldable pub grantable : GrantInput → Sales → Attempt SaleError Company
  unfolding is_known_product is_sellable_feature first
  grantable input s = do
    fail_if (not (is_known_product input.product)) no_product
    fail_if (not (is_sellable_feature input.product input.name)) not_sellable
    fail_if (ends_early input.valid_from input.valid_until) ends_first
    fail_if (o.fails read_company) broken
    or_fail no_company (first (λ c. nat_eq c.id input.company_id) s.companies)

  -- record and announceCompany, neither of which fails its caller.
  unfoldable pub noted : ModuleEvent → Sales → Sales
  noted event s = record s {
    audit = if o.fails write_audit then s.audit else s.audit ++ event ∷ [];
    announced =
        if o.fails publish
        then s.announced
        else s.announced
          ++ record { kind = company; id = o.uuid_text event.company_id; at = o.now } ∷ [];
  }

  -- The transaction of ModuleRepository.Grant, and what follows it.
  unfoldable pub write_grant :
      GrantInput → Attempt SaleError (Option Uuid) → Sales → Attempt SaleError CompanyModule × Sales
  unfolding granted_row put_row noted
  write_grant input (fails e) s = (fails e, s)
  write_grant input (yields actor) s =
      let event : ModuleEvent = record {
        company_id = input.company_id;
        product = input.product;
        name = input.name;
        action = module_granted;
        actor = actor;
      } in
      if o.fails write_module then (fails broken, s) else (
        yields (granted_row input),
        noted event (record s {
          modules = put_row (granted_row input) s.modules;
          history = s.history ++ event ∷ [];
        }),
      )

  -- Grant, for a company that has been found.
  unfoldable pub grant_to :
      Principal
      → GrantInput
      → Attempt SaleError Company
      → Sales
      → Attempt SaleError CompanyModule × Sales
  unfolding write_grant actor_uuid allocate_fms_tenant_id
  grant_to actor input (fails e) s = (fails e, s)
  grant_to actor input (yields c) s =
      if needs_tenant input c
      then if o.fails allocate
        then (fails broken, s)
        else write_grant input (actor_uuid o.parse_uuid actor)
            (allocate_fms_tenant_id input.company_id s)
      else write_grant input (actor_uuid o.parse_uuid actor) s

  -- Grant
  unfoldable pub grant : Principal → GrantInput → Sales → Attempt SaleError CompanyModule × Sales
  unfolding grant_to grantable
  grant actor input s = grant_to actor input (grantable input s) s

  -- The transaction of ModuleRepository.Revoke, and what follows it.
  unfoldable pub write_revoke :
      Uuid
      → String
      → String
      → Attempt SaleError (Option Uuid)
      → Sales
      → Attempt SaleError (Unit {0}) × Sales
  unfolding revoke_module noted
  write_revoke id product name (fails e) s = (fails e, s)
  write_revoke id product name (yields actor) s =
      let event : ModuleEvent = record {
        company_id = id;
        product = product;
        name = name;
        action = module_revoked;
        actor = actor;
      } in
      if o.fails write_module
      then (fails broken, s)
      else elim (revoke_module id product name s.settings s.modules) [
        | none ↦ (fails no_module, s)
        | some rows ↦ (
          yields tt,
          noted event (record s { modules = rows; history = s.history ++ event ∷ [] }),
        )
      ]

  -- Revoke
  unfoldable pub revoke :
      Principal → Uuid → String → String → Sales → Attempt SaleError (Unit {0}) × Sales
  unfolding write_revoke actor_uuid
  revoke actor id product name s = write_revoke id product name (actor_uuid o.parse_uuid actor) s

  -- Effective: the mode, and what the company holds.
  unfoldable pub effective : Uuid → String → AccessTables → Attempt SaleError (String × List String)
  unfolding is_known_product mode_for active_for_company
  effective id product t = do
    fail_if (not (is_known_product product)) no_product
    yields (
      mode_for id product t.settings,
      active_for_company o.sort sellable_features o.today t id product,
    )

-- `limit <= 0 || limit > 200`
unfoldable pub history_limit : ℤ → ℕ
history_limit (negsuc n) = 50
history_limit (pos n) = if nat_eq n 0 then 50 else if ltb 200 n then 50 else n

-- History: the latest events first.
unfoldable pub history : Uuid → ℤ → Sales → List ModuleEvent
unfolding history_limit
history id limit s =
    take (history_limit limit) (backwards (keep (λ e. nat_eq e.company_id id) s.history))

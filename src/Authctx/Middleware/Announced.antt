-- ===== src/Authctx/Middleware/Announced.antt =====
-- The HTTP guard behind a revocation list: internal/platform/authctx/middleware.go with
-- internal/platform/revocation/revocation.go as its checker.
use authentication_service.Prelude.{
  String, List, false, Option, some, eq_iff, any, true, ◌≡◌, ◌≢◌, arith, ◌||◌, if◌then◌else◌,
}
use authentication_service.Authctx.Principal.{Principal}
use authentication_service.Authctx.Verifier.{Parse, ok, verify_with_issued_at}
use authentication_service.Authctx.Middleware.Guards.{
  aborted, bound, Remote, Checker, is_revoked, authenticate, access_changed,
}
use authentication_service.Revocation.Held.{
  Time, Event, RevocationList, revoked, replace, apply_all,
}
use authentication_service.Revocation.Meaning.{hits, revoked-replace, revoked-apply_all}

-- The list as the checker of the middleware.
abbrev pub checker : RevocationList → Checker
checker l = revoked l

-- A service resynced from the store, that then heard more announcements, answers a locally verified
-- token by them alone: refused if one of the recorded or heard announcements hits it, and bound
-- to its principal if none does.
pub authenticate-announced :
    (parse : Parse) (remote : Option Remote) (stored heard : List Event) (l : RevocationList)
    (token : String) (p : Principal) (t : Time)
    → token ≢ ""
    → verify_with_issued_at parse token ≡ ok (p, t)
    → p.single_device ≡ false
    → authenticate parse remote (some (checker (apply_all heard (replace stored l)))) token ≡ (
        if any (λ e. hits e p.token_id p.user_id p.company_id t) stored
          || any (λ e. hits e p.token_id p.user_id p.company_id t) heard
        then aborted 401 access_changed
        else bound p)
unfolding authenticate is_revoked
authenticate-announced parse remote stored heard l token p t named verified free = ground (
  arith,
  eq_iff token "",
  revoked-apply_all heard (replace stored l) p.token_id p.user_id p.company_id t,
  revoked-replace stored l p.token_id p.user_id p.company_id t,
)

-- A token that the guard can check by itself: its key and its times are good, and it is not bound to a
-- single device.
abbrev pub VerifiesLocally : Parse → String → Principal → Time → Type 0
VerifiesLocally parse token p t =
    (token ≢ "") × (verify_with_issued_at parse token ≡ ok (p, t)) × (p.single_device ≡ false)

pub authenticate-revoked :
    (parse : Parse) (remote : Option Remote) (l : RevocationList) (token : String) (p : Principal)
    (t : Time)
    → VerifiesLocally parse token p t
    → revoked l p.token_id p.user_id p.company_id t ≡ true
    → authenticate parse remote (some (checker l)) token ≡ aborted 401 access_changed
unfolding authenticate is_revoked
authenticate-revoked parse remote l token p t (named, verified, free) h =
    ground (arith, eq_iff token "", named, verified, free, h)

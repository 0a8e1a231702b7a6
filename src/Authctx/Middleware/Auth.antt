-- ===== src/Authctx/Middleware/Auth.antt =====
-- Who passes the HTTP guards.
use authentication_service.Prelude.{
  String, true, false, Option, none, some, ◌==◌, eq_iff, ◌≡◌, ◌≢◌, ◌↔◌, ◌⊎◌, inl, inr, sym, ap,
  refl, arith, Bool-cases,
}
use Prim.Native.String.{◌++◌}
use authentication_service.Prelude.Text.{cut, cut-join}
use authentication_service.Authctx.Product.{Product, Catalogs}
use authentication_service.Authctx.Principal.{Principal, has_permission, has_module}
use authentication_service.Authctx.Verifier.{
  Parse, Verified, VerifyError, ok, err, verify_with_issued_at,
}
use authentication_service.Authctx.Middleware.Guards.{
  bound, Remote, Checker, is_revoked, ask_remote, authenticate, next, require_module,
}
use authentication_service.Revocation.Held.{Time}

Verified-error {ℓ} :
    {A : Type ℓ} (v : Verified A) → ((a : A) × (v ≡ ok a)) ⊎ ((e : VerifyError) × (v ≡ err e))
Verified-error (ok a) = inl (a, refl)
Verified-error (err e) = inr (e, refl)

-- The token verifies here, does not belong to a single-device session, and is not revoked.
abbrev pub AcceptedHere : Parse → Option Checker → String → Principal → Type 0
AcceptedHere parse check token p =
    (issued_at : Time) × (verify_with_issued_at parse token ≡ ok (p, issued_at))
    × (p.single_device ≡ false)
    × (is_revoked check p issued_at ≡ false)

-- What the authentication service answers, if there is a way to ask it.
abbrev pub remote_answer : Option Remote → String → Option Principal
remote_answer none token = none
remote_answer (some validate) token = validate token

-- The token cannot be settled here: it does not verify, or it belongs to a single-device session.
abbrev pub IsUnsettled : Parse → String → Type 0
IsUnsettled parse token =
    ((e : VerifyError) × (verify_with_issued_at parse token ≡ err e))
    ⊎ ((q : Principal) × (issued_at : Time) × (verify_with_issued_at parse token
          ≡ ok (q, issued_at))
        × (q.single_device ≡ true))

ask_remote-bound_iff :
    (remote : Option Remote) (token : String) (p : Principal)
    → (ask_remote remote token ≡ bound p) ↔ (remote_answer remote token ≡ some p)
unfolding ask_remote
ask_remote-bound_iff none token p = ground arith
ask_remote-bound_iff (some validate) token p = ground arith

bound_here :
    (parse : Parse) (remote : Option Remote) (check : Option Checker) (token : String)
    (q p : Principal) (t : Time)
    → token ≢ ""
    → verify_with_issued_at parse token ≡ ok (q, t)
    → (authenticate parse remote check token ≡ bound p) ↔ (
        ((q.single_device ≡ false) × (is_revoked check q t ≡ false) × (q ≡ p))
        ⊎ ((q.single_device ≡ true) × (remote_answer remote token ≡ some p)))
unfolding authenticate
bound_here parse remote check token q p t named verified =
    ground (arith, eq_iff token "", ask_remote-bound_iff remote token p)

bound_elsewhere :
    (parse : Parse) (remote : Option Remote) (check : Option Checker) (token : String)
    (p : Principal)
    → token ≢ ""
    → ((a : Principal × Time) → verify_with_issued_at parse token ≢ ok a)
    → (authenticate parse remote check token ≡ bound p) ↔ (remote_answer remote token ≡ some p)
unfolding authenticate
bound_elsewhere parse remote check token p named refused =
    elim (Verified-error (verify_with_issued_at parse token)) [
      | inl (a, verified) ↦ absurd (refused a verified)
      | inr (e, failed) ↦ ground (arith, eq_iff token "", ask_remote-bound_iff remote token p)
    ]

same_user :
    (parse : Parse) (token : String) (p q : Principal) (t u : Time)
    → verify_with_issued_at parse token ≡ ok (p, t)
    → verify_with_issued_at parse token ≡ ok (q, u)
    → (p ≡ q) × (t ≡ u)
same_user parse token p q t u h k = ground arith

held_session :
    (parse : Parse) (token : String) (q : Principal) (t : Time)
    → IsUnsettled parse token
    → verify_with_issued_at parse token ≡ ok (q, t)
    → q.single_device ≡ true
held_session parse token q t (inl (e, failed)) verified = absurd (ground arith)
held_session parse token q t (inr (r, u, other, held)) verified =
    rw (← (same_user parse token r q u t other verified).0) held

-- A request passes authentication as a principal exactly when it carries a token and the token is
-- accepted, here or by the authentication service.
pub authenticate-bound_iff :
    (parse : Parse) (remote : Option Remote) (check : Option Checker) (token : String)
    (p : Principal)
    → (authenticate parse remote check token ≡ bound p) ↔ (
        (token ≢ "")
        × (AcceptedHere parse check token p
            ⊎ (IsUnsettled parse token × (remote_answer remote token ≡ some p))))
unfolding authenticate
authenticate-bound_iff parse remote check token p = elim (Bool-cases (token == "")) [
  | inl empty ↦
      let blank : token ≡ "" = (eq_iff token "").0 empty in
      (λ h. absurd (ground arith), λ h. absurd (h.0 blank))
  | inr filled ↦
      let named : token ≢ "" = ground (arith, eq_iff token "") in
      elim (Verified-error (verify_with_issued_at parse token)) [
        | inl ((q, t), verified) ↦
            let (to, from) = bound_here parse remote check token q p t named verified in
            (
              λ h. (
                named,
                elim (to h) [
                  | inl (free, live, same) ↦ inl (t, cc, rw (← same) free, rw (← same) live)
                  | inr (held, answer) ↦ inr (inr (q, t, verified, held), answer)
                ],
              ),
              λ (_, accepted). elim accepted [
                | inl (u, other, free, live) ↦
                    let (same, at) = same_user parse token p q u t other verified in
                    from (inl (rw (← same) free, rw (← same, ← at) live, sym same))
                | inr (unsettled, answer) ↦
                    from (inr (held_session parse token q t unsettled verified, answer))
              ],
            )
        | inr (e, failed) ↦
            let (to, from) =
              bound_elsewhere parse remote check token p named (λ a verified. ground arith) in
            (
              λ h. (named, inr (inl (e, failed), to h)),
              λ (_, accepted). elim accepted [
                | inl (u, verified, free, live) ↦ absurd (ground arith)
                | inr (unsettled, answer) ↦ from answer
              ],
            )
      ]
]

-- A permission with a dot lets exactly the authenticated callers through who hold it in the
-- service's product, under its whole name.
pub require_module-next_iff :
    (catalogs : Catalogs) (service : Product) (permission : String) (principal : Option Principal)
    (parts : String × String)
    → cut "." permission ≡ some parts
    → (require_module catalogs service permission principal ≡ next) ↔ (
        (p : Principal) × (principal ≡ some p)
        × (has_permission catalogs p service permission ≡ true))
unfolding require_module has_module
require_module-next_iff catalogs service permission none (m, a) h = ground arith
require_module-next_iff catalogs service permission (some p) (m, a) h =
    let whole : m ++ ("." ++ a) ≡ permission = cut-join "." permission m a h in
    ground (arith, ap (has_permission catalogs p service) whole)

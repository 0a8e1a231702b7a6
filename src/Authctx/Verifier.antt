-- ===== src/Authctx/Verifier.antt =====
-- Parsing and verifying a token: ParseClaims (internal/platform/authctx/claims.go), Verify and
-- VerifyWithIssuedAt (verifier.go). `parse` stands for `jwt.ParseWithClaims` under the verifier's
-- public key and the options that the source gives it (RS256 only, the issuer, an expiry): the
-- claims with the `Valid` mark of the parsed token, or none for an error.
use authentication_service.Prelude.{String, Bool, Option, none, some, ◌==◌, if◌then◌else◌}
use authentication_service.Authctx.Principal.{Principal}
use authentication_service.Revocation.Held.{Time}

pub record Claims : Type 0 where
  pub principal : Principal
  pub issued_at : Option Time

pub data VerifyError : Type 0 where
  parse_token token_invalid no_subject : VerifyError

pub data Verified {ℓ} (A : Type ℓ) : Type ℓ where
  ok : A → Verified A
  err : VerifyError → Verified A

infixl 5 ◌>>=◌
abbrev pub ◌>>=◌ {ℓ κ} : {A : Type ℓ} {B : Type κ} → Verified A → (A → Verified B) → Verified B
ok a >>= f = f a
err e >>= f = err e

-- jwt.ParseWithClaims
abbrev pub Parse : Type 0
Parse = String → Option (Claims × Bool)

-- `claims.IssuedAt.Time`, or the zero time.
abbrev pub issue_time : Option Time → Time
issue_time none = 0
issue_time (some t) = t

-- The refusal of claims that name no user.
abbrev pub with_subject {ℓ} : {A : Type ℓ} → Principal → A → Verified A
with_subject p result = if p.user_id == "" then err no_subject else ok result

module _ (parse : Parse) where
  -- ParseClaims
  unfoldable pub parse_claims : String → Verified Claims
  parse_claims token = elim (parse token) [
    | none ↦ err parse_token
    | some (claims, valid) ↦ if valid then ok claims else err token_invalid
  ]

  -- VerifyWithIssuedAt
  unfoldable pub verify_with_issued_at : String → Verified (Principal × Time)
  unfolding parse_claims
  verify_with_issued_at token = do
    claims ← parse_claims token
    with_subject claims.principal (claims.principal, issue_time claims.issued_at)

  -- Verify
  unfoldable pub verify : String → Verified Principal
  unfolding parse_claims
  verify token = do claims ← parse_claims token; with_subject claims.principal claims.principal

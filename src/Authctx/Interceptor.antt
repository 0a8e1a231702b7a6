-- ===== src/Authctx/Interceptor.antt =====
-- The gRPC server interceptor (internal/platform/authctx/grpc.go), as a function from what it reads
-- of the call to what the handler is given.
use authentication_service.Prelude.{
  String, Bool, true, false, not, ◌&&◌, ◌||◌, List, [], ◌∷◌, Option, none, some, ◌==◌, any, keep,
  contains, Elem, eq_iff, ◌≡◌, ◌≢◌, ◌⊎◌, refl, arith, if◌then◌else◌, All,
}
use authentication_service.Prelude.Text.{cut_prefix}
use authentication_service.Authctx.Principal.{Principal}
use authentication_service.Authctx.Verifier.{Parse, ok, err, verify}

-- The method, and the metadata: the service tokens and the authorization values.
pub record Call : Type 0 where
  pub full_method : String
  pub metadata : Option (List String × List String)

-- status.Error(codes.Unauthenticated, …), or the handler with or without a principal.
pub data Handling : Type 0 where
  unauthenticated : String → Handling
  handled : Option Principal → Handling

-- isHealthCheck
unfoldable pub is_health_check : String → Bool
is_health_check method =
    method == "/grpc.health.v1.Health/Check" || method == "/grpc.health.v1.Health/Watch"

-- stripBearer: a text that is longer than the prefix loses it.
unfoldable pub strip_bearer : String → String
unfolding cut_prefix
strip_bearer s = elim (cut_prefix "Bearer " s) [
  | some rest ↦ if rest == "" then s else rest
  | none ↦ elim (cut_prefix "bearer " s) [ some rest ↦ if rest == "" then s else rest | none ↦ s ]
]

-- The set `accepted`: the configured tokens that are not empty.
unfoldable pub accepted_tokens : List String → List String
accepted_tokens configured = keep (λ t. not (t == "")) configured

-- hasAccepted
unfoldable pub has_accepted : List String → List String → Bool
has_accepted got accepted = any (λ g. contains accepted g) got

abbrev is_empty : List String → Bool
is_empty [] = true
is_empty (_ ∷ _) = false

-- The end-user principal: a token that does not verify is not fatal.
unfoldable pub caller : Option Parse → List String → Option Principal
caller none authorization = none
caller (some parse) [] = none
caller (some parse) (raw ∷ _) = elim (verify parse (strip_bearer raw)) [
  | err _ ↦ none
  | ok p ↦ some p
]

-- UnaryServerInterceptor; `verifier` is none for a nil `*Verifier`.
unfoldable pub intercept : Option Parse → List String → Call → Handling
intercept verifier configured call =
    if is_health_check call.full_method then handled none else elim call.metadata [
      | none ↦ unauthenticated "missing metadata"
      | some (service_tokens, authorization) ↦
          if not (is_empty (accepted_tokens configured))
            && not (has_accepted service_tokens (accepted_tokens configured))
          then unauthenticated "invalid service token"
          else handled (caller verifier authorization)
    ]

-- Some token of the call is one of the configured ones, and not empty.
abbrev pub Presents : List String → List String → Type 0
Presents configured [] = ⊥
Presents configured (t ∷ ts) = ((t ≢ "") × Elem t configured) ⊎ Presents configured ts

accepted_blank :
    (configured : List String)
    → All (λ t. t ≡ "") configured
    → is_empty (accepted_tokens configured) ≡ true
unfolding accepted_tokens
accepted_blank [] h = refl
accepted_blank (t ∷ ts) h = ground (arith, eq_iff t "", accepted_blank ts h.1)

-- With no configured token but empty ones, every call with metadata reaches its handler, whatever
-- service token it presents.
pub intercept_open :
    (verifier : Option Parse) (configured : List String) (call : Call)
    (service_tokens authorization : List String)
    → All (λ t. t ≡ "") configured
    → is_health_check call.full_method ≡ false
    → call.metadata ≡ some (service_tokens, authorization)
    → intercept verifier configured call ≡ handled (caller verifier authorization)
unfolding intercept
intercept_open verifier configured call service_tokens authorization blank other sent =
    ground (arith, accepted_blank configured blank)

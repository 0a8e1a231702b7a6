-- ===== src/Authctx/Middleware/Guards.antt =====
-- The gin handlers of internal/platform/authctx/middleware.go, as functions from what they read of
-- the request to what they do with it. The context of a request carries the principal or none.
use authentication_service.Prelude.{
  ℕ, String, Bool, false, not, List, Option, none, some, ◌==◌, if◌then◌else◌,
}
use authentication_service.Prelude.Text.{cut, cut_prefix, trim_space}
use authentication_service.Authctx.Product.{Product, Catalogs}
use authentication_service.Authctx.Principal.{Principal, has_role, has_module}
use authentication_service.Authctx.Verifier.{Parse, ok, err, verify_with_issued_at}
use authentication_service.Revocation.Held.{Time}

-- AbortWithStatusJSON with a message, or `bind` and the rest of the chain for a principal.
pub data Outcome : Type 0 where
  aborted : ℕ → String → Outcome
  bound : Principal → Outcome

-- ExtractToken: `auth` is the Authorization header, `query` the `token` parameter.
unfoldable pub extract_token : String → String → String
unfolding cut_prefix trim_space
extract_token auth query =
    if auth == ""
    then query
    else elim (cut_prefix "Bearer " auth) [ some after ↦ trim_space after | none ↦ trim_space auth ]

-- RemoteValidator.ValidateToken: none for an error. RevocationChecker.Revoked.
abbrev pub Remote : Type 0
Remote = String → Option Principal

abbrev pub Checker : Type 0
Checker = String → String → String → Time → Bool

-- `revoked != nil && revoked.Revoked(...)`
unfoldable pub is_revoked : Option Checker → Principal → Time → Bool
is_revoked none p issued_at = false
is_revoked (some check) p issued_at = check p.token_id p.user_id p.company_id issued_at

abbrev pub no_token : String
no_token = "No token provided."

abbrev pub access_changed : String
access_changed =
    "Akses Anda telah berubah. Silakan login ulang. (Your access changed; please sign in again.)"

abbrev pub sign_in_again : String
sign_in_again = "Silahkan untuk login ulang"

abbrev pub other_device : String
other_device =
    "Sesi Anda berakhir karena akun ini masuk di perangkat lain. Silakan login ulang. (Signed in on another device.)"

-- The end of the handler: what only the authentication service can settle.
unfoldable pub ask_remote : Option Remote → String → Outcome
ask_remote none token = aborted 401 sign_in_again
ask_remote (some validate) token = elim (validate token) [
  | none ↦ aborted 401 other_device
  | some principal ↦ bound principal
]

-- RequireAuthWithRevocations, on the extracted token.
unfoldable pub authenticate : Parse → Option Remote → Option Checker → String → Outcome
authenticate parse remote check token =
    if token == "" then aborted 401 no_token else elim (verify_with_issued_at parse token) [
      | err _ ↦ ask_remote remote token
      | ok (p, issued_at) ↦
          if p.single_device
          then ask_remote remote token
          else if is_revoked check p issued_at
          then aborted 401 access_changed
          else bound p
    ]

-- RequireAuthWithRevocations
unfoldable pub require_auth : Parse → Option Remote → Option Checker → String → String → Outcome
unfolding authenticate extract_token
require_auth parse remote check auth query =
    authenticate parse remote check (extract_token auth query)

-- The guards behind it either abort or call `c.Next()`.
pub data Passage : Type 0 where
  stopped : ℕ → String → Passage
  next : Passage

-- RequireRole
unfoldable pub require_role : Product → List String → Option Principal → Passage
require_role service roles none = stopped 401 no_token
require_role service roles (some p) =
    if not (has_role service p roles) then stopped 403 "Access Denied" else next

-- RequirePlatformStaff
unfoldable pub require_platform_staff : Option Principal → Passage
require_platform_staff none = stopped 401 no_token
require_platform_staff (some p) =
    if not p.is_platform_staff
    then stopped 403 "This action is restricted to Karlo staff."
    else next

-- RequireModule
unfoldable pub require_module : Catalogs → Product → String → Option Principal → Passage
unfolding cut
require_module catalogs service permission principal = elim (cut "." permission) [
  | none ↦ stopped 500 "malformed permission"
  | some (module_name, action) ↦ elim principal [
    | none ↦ stopped 401 no_token
    | some p ↦
        if not (has_module catalogs service p module_name action)
        then stopped 403 "Access Denied"
        else next
  ]
]

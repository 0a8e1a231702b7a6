-- ===== src/Auth/FailClosed.antt =====
-- A token that is minted while the access cannot be built (mintAccessToken of
-- internal/services/auth_service.go) opens nothing.
use authentication_service.Prelude.{String, Bool, false, [], none, ◌≡◌, arith}
use authentication_service.Prelude.Dict.{lookup}
use authentication_service.Authctx.Product.{Product, Catalogs}
use authentication_service.Authctx.Principal.{has_permission, has_product, grantable_permissions}
use authentication_service.Auth.Store.{Uuid, User, Env}
use authentication_service.Auth.Tokens.{principal_of}

-- While the access of a user who is not staff cannot be built, the principal of their token has no
-- permission in any product, reaches no product, and may assign nothing.
pub principal_of-has_permission :
    (catalogs : Catalogs) (env : Env) (u : User) (token_id : Uuid) (single : Bool)
    (product : Product) (key : String)
    → env.build_access u.id u.company_id ≡ none
    → u.is_platform_staff ≡ false
    → (has_permission catalogs (principal_of env u token_id single) product key ≡ false)
      × (has_product (principal_of env u token_id single) product ≡ false)
      × (grantable_permissions catalogs (principal_of env u token_id single) product ≡ [])
unfolding has_permission has_product grantable_permissions principal_of lookup
principal_of-has_permission catalogs env u token_id single product key missing tenant = ground arith

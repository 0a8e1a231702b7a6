-- ===== src/Import/Carried.antt =====
-- The permissions that an account brings along.
use authentication_service.Prelude.{String, Bool, true, not, List, [], ◌∷◌, all, ◌≡◌, refl, arith}
use authentication_service.Prelude.Dict.{Dict, lookup}
use authentication_service.Auth.Store.{is_nil}
use authentication_service.Authctx.Product.{catalog_for, feature_for}
use authentication_service.Authctx.Catalog.Shipped.{catalogs}
use authentication_service.Import.Mapping.{legacy_permissions, keys_of}

-- The catalogue of TMS knows the key.
abbrev pub is_known : String → Bool
is_known key = not (is_nil (feature_for catalogs "tms" key))

keys_of-known :
    (is_set : String → Bool) (seen : List String) (table : Dict String)
    → all (λ e. is_known e.1) table ≡ true
    → all is_known (keys_of is_set seen table) ≡ true
unfolding keys_of
keys_of-known is_set seen [] h = refl
keys_of-known is_set seen ((column, key) ∷ table) h =
    ground (arith, h, keys_of-known is_set seen table, keys_of-known is_set (key ∷ seen) table)

legacy_permissions-known : all (λ e. is_known e.1) legacy_permissions ≡ true
unfolding feature_for catalogs lookup catalog_for
legacy_permissions-known = refl

-- Whatever permissions an account of the export has, every key that is carried over from them is one
-- that the catalogue of TMS knows.
pub keys_of-legacy_permissions :
    (is_set : String → Bool) → all is_known (keys_of is_set [] legacy_permissions) ≡ true
keys_of-legacy_permissions is_set =
    keys_of-known is_set [] legacy_permissions legacy_permissions-known

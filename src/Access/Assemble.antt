-- ===== src/Access/Assemble.antt =====
-- assemble and dedupe (internal/repository/access_repository.go): the role, the extras and the
-- entitlement become one access for each product.
use authentication_service.Prelude.{
  String, Bool, true, false, not, List, [], ◌∷◌, ◌++◌, none, some, ◌==◌, keep, contains,
}
use authentication_service.Prelude.Dict.{Dict, lookup, insert}
use authentication_service.Prelude.Text.{cut}
use authentication_service.Authctx.Product.{product_shared}
use authentication_service.Authctx.Principal.{ProductAccess}
use authentication_service.Entitlement.Features.{or_no_names, keys}

pub record AccessRole : Type 0 where
  pub name : String
  pub grants_all : Bool
  pub permissions : List String

pub record AccessExtra : Type 0 where
  pub product : String
  pub permissions : List String

-- `perProduct[product] = append(perProduct[product], keys...)`
unfoldable pub append_keys : String → List String → Dict (List String) → Dict (List String)
unfolding lookup insert
append_keys product added m = insert product (or_no_names (lookup product m) ++ added) m

-- The loop over the keys of the role: a key with no product is passed over.
unfoldable pub place_role : Dict (List String) → List String → Dict (List String)
unfolding append_keys cut
place_role m [] = m
place_role m (key ∷ rest) =
    place_role
      (elim (cut ":" key) [ none ↦ m | some (product, bare) ↦ append_keys product (bare ∷ []) m ])
      rest

-- The loop over the extras.
unfoldable pub place_extras : Dict (List String) → List AccessExtra → Dict (List String)
unfolding append_keys
place_extras m [] = m
place_extras m (e ∷ rest) = place_extras (append_keys e.product e.permissions m) rest

-- The loop of dedupe.
unfoldable pub dedupe_from : List String → List String → List String
unfolding contains
dedupe_from seen [] = []
dedupe_from seen (v ∷ rest) = elim (contains seen v) [
  | true ↦ dedupe_from seen rest
  | false ↦ v ∷ dedupe_from (v ∷ seen) rest
]

-- dedupe
unfoldable pub dedupe : List String → List String
unfolding dedupe_from
dedupe xs = dedupe_from [] xs

-- The products of the entitlement but the shared one, and every product with a key.
unfoldable pub products_of : Dict (List String) → Dict (List String) → List String
products_of features per_product =
    keep (λ p. not (p == product_shared)) (keys features) ++ keys per_product

module _ (role : AccessRole) (features per_product : Dict (List String)) where
  unfoldable pub access_in : String → ProductAccess
  unfolding lookup dedupe
  access_in product = record {
    role = role.name;
    permissions = dedupe (or_no_names (lookup product per_product));
    features =
        or_no_names (lookup product features) ++ or_no_names (lookup product_shared features);
    grants_all = role.grants_all;
  }

  -- The loop that fills the result.
  unfoldable pub access_for_all : List String → Dict ProductAccess
  unfolding access_in insert
  access_for_all [] = []
  access_for_all (p ∷ rest) = insert p (access_in p) (access_for_all rest)

-- assemble, with the entitlement of the company or none for a person without one.
unfoldable pub assemble : AccessRole → List AccessExtra → Dict (List String) → Dict ProductAccess
unfolding place_role place_extras products_of access_for_all
assemble role extras features =
    let per_product = place_extras (place_role [] role.permissions) extras in
    access_for_all role features per_product (products_of features per_product)

-- ===== src/Authctx/Features/Validate.antt =====
-- ValidateCatalogs (internal/platform/authctx/product.go), over any catalogues and any lists of
-- sellable features. `render` stands for the sorting and the formatting of the message.
use authentication_service.Prelude.{
  String, List, [], ◌∷◌, ◌++◌, Option, none, some, map, ◌==◌, contains, not, if◌then◌else◌,
}
use authentication_service.Authctx.Product.{
  Product, Catalog, Catalogs, product_tms, product_fms, product_shared,
}
use authentication_service.Authctx.Features.Tables.{Feature}

pub data Problem : Type 0 where
  ungated : Product → String → Problem
  undeclared : Product → String → String → Problem

-- `known`: the names of the sellable features of the three products.
unfoldable pub known_features : (Product → List Feature) → List String
known_features sellable =
    map (λ f. f.name) (sellable product_tms)
    ++ (map (λ f. f.name) (sellable product_fms) ++ map (λ f. f.name) (sellable product_shared))

-- The inner loop, over one catalogue.
unfoldable pub catalog_problems : List String → Product → Catalog → List Problem
catalog_problems known product [] = []
catalog_problems known product ((key, s) ∷ rest) =
    let others = catalog_problems known product rest in
    if s.feature == ""
    then ungated product key ∷ others
    else if not (contains known s.feature)
    then undeclared product key s.feature ∷ others
    else others

-- The outer loop, over every catalogue.
unfoldable pub all_problems : List String → Catalogs → List Problem
unfolding catalog_problems
all_problems known [] = []
all_problems known ((product, catalog) ∷ rest) =
    catalog_problems known product catalog ++ all_problems known rest

-- nil, or the rendered error.
unfoldable pub error_of : (List Problem → String) → List Problem → Option String
error_of render [] = none
error_of render (problem ∷ others) = some (render (problem ∷ others))

-- ValidateCatalogs
unfoldable pub validate_catalogs :
    (List Problem → String) → (Product → List Feature) → Catalogs → Option String
unfolding known_features all_problems error_of
validate_catalogs render sellable catalogs =
    error_of render (all_problems (known_features sellable) catalogs)

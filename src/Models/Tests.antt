-- ===== src/Models/Tests.antt =====
-- A list with the characters that are escaped.
use authentication_service.Prelude.{[], ◌∷◌, some, ◌≡◌}
use authentication_service.Models.Arrays.{value, parse_pg_array}
use authentication_service.Models.Scanned.{parse_pg_array-value}

parse_pg_array-value_example :
    parse_pg_array (value ("a,\"b\"" ∷ "" ∷ "c\\}" ∷ [])) ≡ some ("a,\"b\"" ∷ "" ∷ "c\\}" ∷ [])
parse_pg_array-value_example = parse_pg_array-value ("a,\"b\"" ∷ "" ∷ "c\\}" ∷ [])

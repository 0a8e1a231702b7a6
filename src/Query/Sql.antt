-- ===== src/Query/Sql.antt =====
-- The translation of the normalised request to SQL (internal/repository/query.go): the conditions and
-- the order that the functions add to a query, in their order.

use Prim.Native.String.{◌++◌}
use authentication_service.Prelude.{
  String, Bool, true, false, List, [], ◌∷◌, Option, none, some, ◌==◌, if◌then◌else◌,
}
use authentication_service.Prelude.Text.{cut}
use authentication_service.Query.Types.{
  Operator, eq, neq, like, in_list, gt, gte, lt, lte, between, unknown, Filter, Sort,
}

-- The text of a condition with its place-holders, and the values that are bound to them.
pub data Bound : Type 0 where
  one : String → Bound
  many : List String → Bound
  two : String → String → Bound

pub record Where : Type 0 where
  pub condition : String
  pub bound : Bound

-- strings.ReplaceAll of a double quote by two.
unfoldable pub double_quotes : String → String
double_quotes String.[] = ""
double_quotes (String.◌∷◌ c s) =
    let rest = double_quotes s in
    if String.◌∷◌ c String.[] == "\"" then String.◌∷◌ c (String.◌∷◌ c rest) else String.◌∷◌ c rest

-- quoteIdent
unfoldable pub quote_ident : String → String
unfolding double_quotes
quote_ident s = "\"" ++ (double_quotes s ++ "\"")

-- One round of the loop of applyFilters: none where it adds no condition.
unfoldable pub where_of : Filter → Operator → Option Where
unfolding quote_ident cut
where_of f neq = some (record { condition = quote_ident f.field ++ " <> ?"; bound = one f.value })
where_of f like = some (record {
  condition = quote_ident f.field ++ " ILIKE ?";
  bound = one ("%" ++ (f.value ++ "%"));
})
where_of f in_list =
    some (record { condition = quote_ident f.field ++ " IN ?"; bound = many f.values })
where_of f gt = some (record { condition = quote_ident f.field ++ " > ?"; bound = one f.value })
where_of f gte = some (record { condition = quote_ident f.field ++ " >= ?"; bound = one f.value })
where_of f lt = some (record { condition = quote_ident f.field ++ " < ?"; bound = one f.value })
where_of f lte = some (record { condition = quote_ident f.field ++ " <= ?"; bound = one f.value })
where_of f between = elim (cut "," f.value) [
  | none ↦ none
  | some (low, high) ↦
      some (record { condition = quote_ident f.field ++ " BETWEEN ? AND ?"; bound = two low high })
]
where_of f eq = some (record { condition = quote_ident f.field ++ " = ?"; bound = one f.value })
where_of f unknown =
    some (record { condition = quote_ident f.field ++ " = ?"; bound = one f.value })

-- applyFilters
unfoldable pub apply_filters : List Filter → List Where
unfolding where_of
apply_filters [] = []
apply_filters (f ∷ fs) = elim (where_of f f.operator) [
  | none ↦ apply_filters fs
  | some w ↦ w ∷ apply_filters fs
]

abbrev direction : Bool → String
direction true = "DESC"
direction false = "ASC"

unfoldable pub order_of : List Sort → List String
unfolding quote_ident
order_of [] = []
order_of (s ∷ ss) = (quote_ident s.field ++ (" " ++ direction s.desc)) ∷ order_of ss

-- applySorts
unfoldable pub apply_sorts : List Sort → String → List String
unfolding order_of
apply_sorts [] fallback = fallback ∷ []
apply_sorts (s ∷ ss) fallback = order_of (s ∷ ss)

-- ===== src/Query/Tests.antt =====
-- Concrete requests.
use authentication_service.Prelude.{◌≡◌, ◌⊎◌, refl, List, [], ◌∷◌, String, Option, none, some}
use Prim.Native.String.{◌++◌}
use authentication_service.Prelude.Int.{pos}
use authentication_service.Prelude.Dict.{lookup}
use authentication_service.Prelude.Text.{cut}
use authentication_service.Query.Types.{Params, Filter, FieldSet, QueryError, between, resolve}
use authentication_service.Query.Parse.{
  Json, Item, RawFilter, RawSort, parse, scalar_of, normalise_operator, list_of, first_non_empty,
  operator_of, split_list,
}
use authentication_service.Query.Proto.{ProtoQuery, ProtoOperator}
use authentication_service.Query.Sql.{apply_filters, quote_ident}
use authentication_service.Query.Allowlist.{Normalises}
use authentication_service.Query.Understood.{Understands, Orders, parse_lem}
use authentication_service.Query.Quoting.{lex_ident, lex_ident-quote_ident}
use authentication_service.Query.Dropped.{apply_filters_drops}

abbrev same : String → String
same s = s

abbrev columns : FieldSet
columns = ("created", "created_at") ∷ []

abbrev range : RawFilter
range = record {
  id = "created";
  value = Json.array (Item.text "2024" ∷ Item.text "2025" ∷ []);
  operator = "between";
  kind = "";
}

abbrev decode_filters : String → Option (List RawFilter)
decode_filters s = some (range ∷ [])

abbrev decode_sorts : String → Option (List RawSort)
decode_sorts s = some []

abbrev clause : Filter
clause = record {
  field = "created_at";
  value = "2024";
  operator = between;
  values = "2024" ∷ "2025" ∷ [];
}

abbrev page : Params
page = record { err = none; page = 3; page_size = 20; filters = []; sorts = []; search = "" }

abbrev parsed : Params
parsed = parse same decode_filters decode_sorts columns "3" "20" "[…]" "" "budi"

parse_lem_example :
    (parsed.err ≡ none)
      × Understands same decode_filters decode_sorts columns "[…]" parsed.filters
      × Orders same decode_filters decode_sorts columns "" parsed.sorts
    ⊎ ((e : QueryError) × (parsed.err ≡ some e) × (parsed.filters ≡ []) × (parsed.sorts ≡ []))
parse_lem_example =
    parse_lem same decode_filters decode_sorts columns "3" "20" "[…]" "" "budi" parsed refl

lex_ident-quote_ident_example : lex_ident (quote_ident "a\"b" ++ " = ?") ≡ some ("a\"b", " = ?")
lex_ident-quote_ident_example = lex_ident-quote_ident "a\"b" " = ?" refl

-- The clause stands for the item.
clause-Normalises : Normalises same columns (range, "2024" ∷ "2025" ∷ []) clause
unfolding resolve lookup normalise_operator list_of scalar_of first_non_empty operator_of split_list
clause-Normalises = record {
  allows = refl;
  operates = refl;
  is_implemented = refl;
  value = refl;
  values = refl;
  is_filled = refl;
}

apply_filters_drops_example : apply_filters (clause ∷ []) ≡ apply_filters []
unfolding cut
apply_filters_drops_example =
    apply_filters_drops same columns range "2024" "2025" [] clause [] (clause-Normalises) refl refl

abbrev listing : ProtoQuery
listing = record {
  page = some (pos 0, pos 50);
  filtered = record { id = "created"; value = "2024"; operator = ProtoOperator.p_in } ∷ [];
  sorted = [];
  search = "";
}

-- ===== src/Query/Types.antt =====
-- The normalised listing request of internal/platform/query/query.go.
use authentication_service.Prelude.{
  ℕ, ◌+◌, ◌*◌, ◌/◌, ◌%◌, ◌-◌, String, Bool, List, Option, ltb, nat_eq, if◌then◌else◌,
}
use authentication_service.Prelude.Dict.{Dict, lookup}
use authentication_service.Prelude.Int.{ℤ, pos, negsuc}
use authentication_service.Safeconv.Clamp.{non_negative_int32}

abbrev pub max_page_size : ℕ
max_page_size = 200

abbrev pub default_page_size : ℕ
default_page_size = 20

pub data Operator : Type 0 where
  eq neq like in_list gt gte lt lte between unknown : Operator

pub record Filter : Type 0 where
  pub field : String
  pub value : String
  pub operator : Operator
  pub values : List String

pub record Sort : Type 0 where
  pub field : String
  pub desc : Bool

-- The errors that Params.Err records, with what their messages name.
pub data QueryError : Type 0 where
  bad_filter_list : QueryError
  cannot_filter : String → QueryError
  not_operator : String → String → QueryError
  empty_in : String → QueryError
  bad_sort_list : QueryError
  cannot_sort : String → QueryError

-- `page` and `page_size` are never negative, since Parse and FromProto clamp them.
pub record Params : Type 0 where
  pub err : Option QueryError
  pub page : ℕ
  pub page_size : ℕ
  pub filters : List Filter
  pub sorts : List Sort
  pub search : String

-- A 64-bit product keeps its low 64 bits, read as a signed number.
unfoldable pub wrap64 : ℕ → ℤ
wrap64 n =
    let low = n % 18446744073709551616 in
    if ltb low 9223372036854775808 then pos low else negsuc (18446744073709551615 - low)

-- Offset
unfoldable pub offset : Params → ℤ
unfolding wrap64
offset p = if ltb p.page 1 then pos 0 else wrap64 (p.page * p.page_size)

-- TotalPages, of a row total that is not negative.
unfoldable pub total_pages : Params → ℕ → ℕ
total_pages p total =
    if nat_eq p.page_size 0
    then 0
    else if nat_eq (total % p.page_size) 0
    then total / p.page_size
    else total / p.page_size + 1

pub record PageInfo : Type 0 where
  pub page : ℤ
  pub page_size : ℤ
  pub total_rows : ℕ
  pub total_pages : ℤ

-- PageInfo
unfoldable pub page_info : Params → ℕ → PageInfo
unfolding total_pages non_negative_int32
page_info p total = record {
  page = non_negative_int32 (pos p.page);
  page_size = non_negative_int32 (pos p.page_size);
  total_rows = total;
  total_pages = non_negative_int32 (pos (total_pages p total));
}

-- FieldSet, a map from external names to storage columns; a nil map has no names.
abbrev pub FieldSet : Type 0
FieldSet = Dict String

-- Resolve
unfoldable pub resolve : FieldSet → String → Option String
unfolding lookup
resolve allowed name = lookup name allowed

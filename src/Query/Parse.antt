-- ===== src/Query/Parse.antt =====
-- Parse and its helpers (internal/platform/query/query.go). `decode_filters` and `decode_sorts` stand
-- for encoding/json on the two lists (none for an error), and `lower` for `strings.ToLower`.
use authentication_service.Prelude.{
  ℕ, String, Bool, true, false, not, ◌&&◌, List, [], ◌∷◌, map, Option, none, some, ◌==◌, contains,
  keep, min, nat_eq, ◌≡◌, ◌⊎◌, inl, inr, refl, if◌then◌else◌,
}
use authentication_service.Prelude.Int.{ℤ, pos, negsuc}
use authentication_service.Prelude.Text.{trim_space, split, count_of}
use authentication_service.Query.Atoi.{atoi}
use authentication_service.Query.Types.{
  Operator, eq, neq, like, in_list, gt, gte, lt, lte, between, unknown, Filter, Sort, QueryError,
  bad_filter_list, cannot_filter, not_operator, empty_in, bad_sort_list, cannot_sort, Params,
  FieldSet, resolve, default_page_size, max_page_size,
}

-- A JSON value, as far as a filter value reads it. `number` carries its text as `FormatFloat` gives
-- it, and `other` is an object, or an array inside an array.
pub data Item : Type 0 where
  text : String → Item
  number : String → Item
  boolean : Bool → Item
  other : Item

pub data Json : Type 0 where
  scalar : Item → Json
  null : Json
  array : List Item → Json

abbrev pub format_bool : Bool → String
format_bool true = "true"
format_bool false = "false"

-- The loop over the items of an array: items of other kinds are passed over.
unfoldable pub item_values : List Item → List String
item_values [] = []
item_values (text s ∷ rest) = s ∷ item_values rest
item_values (number s ∷ rest) = s ∷ item_values rest
item_values (boolean b ∷ rest) = format_bool b ∷ item_values rest
item_values (other ∷ rest) = item_values rest

-- filterValue.UnmarshalJSON: none for the error.
unfoldable pub unmarshal_value : Json → Option (List String)
unfolding item_values
unmarshal_value null = some []
unmarshal_value (scalar (text s)) = some (s ∷ [])
unmarshal_value (scalar (number s)) = some (s ∷ [])
unmarshal_value (scalar (boolean b)) = some (format_bool b ∷ [])
unmarshal_value (scalar other) = none
unmarshal_value (array items) = some (item_values items)

-- rawFilter; an absent value reads as null.
pub record RawFilter : Type 0 where
  pub id : String
  pub value : Json
  pub operator : String
  pub kind : String

pub record RawSort : Type 0 where
  pub id : String
  pub desc : Bool

-- filterValue.scalar
unfoldable pub scalar_of : List String → String
scalar_of [] = ""
scalar_of (v ∷ _) = v

-- The parts of a comma-separated text, trimmed, without the empty ones.
unfoldable pub split_list : String → List String
unfolding split trim_space
split_list v = keep (λ part. not (part == "")) (map trim_space (split "," v))

-- filterValue.list
unfoldable pub list_of : List String → List String
unfolding split_list count_of
list_of [] = []
list_of (v ∷ []) = if nat_eq (count_of "," v) 0 then v ∷ [] else split_list v
list_of (v ∷ w ∷ rest) = v ∷ w ∷ rest

-- firstNonEmpty, of two values.
unfoldable pub first_non_empty : String → String → String
first_non_empty a b = if a == "" then b else a

-- The switch of normaliseOperator, on the text in lower case.
unfoldable pub operator_of : String → Operator
unfolding contains
operator_of s =
    if contains ("neq" ∷ "ne" ∷ "!=" ∷ []) s
    then neq
    else if contains ("like" ∷ "contains" ∷ []) s
    then like
    else if contains ("in" ∷ []) s
    then in_list
    else if contains ("gt" ∷ ">" ∷ []) s
    then gt
    else if contains ("gte" ∷ ">=" ∷ []) s
    then gte
    else if contains ("lt" ∷ "<" ∷ []) s
    then lt
    else if contains ("lte" ∷ "<=" ∷ []) s
    then lte
    else if contains ("between" ∷ []) s
    then between
    else if contains ("regex" ∷ "match" ∷ []) s
    then like
    else if contains ("" ∷ "eq" ∷ "equal" ∷ "equals" ∷ "=" ∷ "==" ∷ "is" ∷ []) s
    then eq
    else unknown

pub data Result {ℓ} (A : Type ℓ) : Type ℓ where
  ok : A → Result A
  err : QueryError → Result A

pub Result-cases {ℓ} :
    {A : Type ℓ} (r : Result A) → ((a : A) × (r ≡ ok a)) ⊎ ((e : QueryError) × (r ≡ err e))
Result-cases (ok a) = inl (a, refl)
Result-cases (err e) = inr (e, refl)

infixl 5 ◌>>=◌
abbrev pub ◌>>=◌ {ℓ κ} : {A : Type ℓ} {B : Type κ} → Result A → (A → Result B) → Result B
ok a >>= f = f a
err e >>= f = err e

abbrev pub is_in : Operator → Bool
is_in in_list = true
is_in _ = false

abbrev pub is_unknown : Operator → Bool
is_unknown unknown = true
is_unknown _ = false

abbrev pub is_nil : List String → Bool
is_nil [] = true
is_nil (_ ∷ _) = false

module _ (lower : String → String) (allowed : FieldSet) where
  -- normaliseOperator
  unfoldable pub normalise_operator : String → Operator
  normalise_operator s = operator_of (lower s)

  -- The checks of one filter, once its field and its values are read.
  unfoldable pub build_filter : RawFilter → String → List String → Result Filter
  unfolding first_non_empty scalar_of
  build_filter it col given =
      let op = normalise_operator (first_non_empty it.operator it.kind) in
      let values = list_of given in
      if is_unknown op
      then err (not_operator (first_non_empty it.operator it.kind) it.id)
      else if is_in op && is_nil values
      then err (empty_in it.id)
      else ok (record { field = col; value = scalar_of given; operator = op; values = values })

  -- One round of the loop of parseFilters.
  unfoldable pub parse_filter : RawFilter → List String → Result Filter
  parse_filter it given = elim (resolve allowed it.id) [
    | none ↦ err (cannot_filter it.id)
    | some col ↦ build_filter it col given
  ]

  unfoldable pub parse_items : List (RawFilter × List String) → Result (List Filter)
  parse_items [] = ok []
  parse_items ((it, given) ∷ rest) = do
    f ← parse_filter it given
    fs ← parse_items rest
    ok (f ∷ fs)

-- The loop of parseSorts.
unfoldable pub parse_sort_items : FieldSet → List RawSort → Result (List Sort)
parse_sort_items allowed [] = ok []
parse_sort_items allowed (it ∷ rest) = elim (resolve allowed it.id) [
  | none ↦ err (cannot_sort it.id)
  | some col ↦ do
    ss ← parse_sort_items allowed rest
    ok (record { field = col; desc = it.desc } ∷ ss)
]

-- Unmarshalling the values is a part of decoding the list: one bad value fails it.
unfoldable pub unmarshal_all : List RawFilter → Option (List (RawFilter × List String))
unfolding unmarshal_value
unmarshal_all [] = some []
unmarshal_all (it ∷ rest) = elim (unmarshal_value it.value) [
  | none ↦ none
  | some given ↦ elim (unmarshal_all rest) [
    | none ↦ none
    | some others ↦ some ((it, given) ∷ others)
  ]
]

-- `page, _ := strconv.Atoi(pageStr)`, not below 0.
unfoldable pub page_of : ℤ × Bool → ℕ
page_of (pos n, _) = n
page_of (negsuc n, _) = 0

-- The page size: the default for an error or a value that is not positive, 200 at most.
unfoldable pub page_size_of : ℤ × Bool → ℕ
page_size_of (pos n, true) = if nat_eq n 0 then default_page_size else min n max_page_size
page_size_of (_, _) = default_page_size

module _ (lower : String → String) (decode_filters : String → Option (List RawFilter))
    (decode_sorts : String → Option (List RawSort)) (allowed : FieldSet) where
  -- The items of `filtered`.
  unfoldable pub decode_items : String → Option (List (RawFilter × List String))
  decode_items raw = elim (decode_filters raw) [ none ↦ none | some items ↦ unmarshal_all items ]

  -- parseFilters
  unfoldable pub parse_filters : String → Result (List Filter)
  parse_filters raw = if raw == "" then ok [] else elim (decode_items raw) [
    | none ↦ err bad_filter_list
    | some items ↦ parse_items lower allowed items
  ]

  -- parseSorts
  unfoldable pub parse_sorts : String → Result (List Sort)
  parse_sorts raw = if raw == "" then ok [] else elim (decode_sorts raw) [
    | none ↦ err bad_sort_list
    | some items ↦ parse_sort_items allowed items
  ]

  -- Parse
  unfoldable pub parse : String → String → String → String → String → Params
  unfolding page_of page_size_of
  parse page_str page_size_str filtered sorted search =
      let base : Params = record {
        err = none;
        page = page_of (atoi page_str);
        page_size = page_size_of (atoi page_size_str);
        filters = [];
        sorts = [];
        search = trim_space search;
      } in
      elim (parse_filters filtered) [
        | err e ↦ record base { err = some e }
        | ok filters ↦ elim (parse_sorts sorted) [
          | err e ↦ record base { err = some e }
          | ok sorts ↦ record base { filters = filters; sorts = sorts }
        ]
      ]

-- ===== src/Query/Dropped.antt =====
-- Filters that reach the database as no condition, or as one that holds of nothing.
use authentication_service.Prelude.{
  String, List, [], ◌∷◌, Option, none, some, ◌≡◌, refl, arith, All, ◌≤◌, Option-cases, inl, inr,
}
use authentication_service.Prelude.Text.{cut}
use authentication_service.Query.Types.{between, Filter, FieldSet, resolve, max_page_size}
use authentication_service.Query.Parse.{RawFilter, scalar_of}
use authentication_service.Query.Allowlist.{Normalises}
use authentication_service.Query.Sql.{apply_filters}
use authentication_service.Query.Proto.{
  ProtoQuery, ProtoFilter, from_proto, proto_filters, proto_page_size,
}

-- A `between` filter whose bounds come as a JSON array adds no condition, if the first bound has no
-- comma: the listing is as if the filter had not been asked for.
pub apply_filters_drops :
    (lower : String → String) (allowed : FieldSet) (it : RawFilter) (low high : String)
    (others : List String) (f : Filter) (fs : List Filter)
    → Normalises lower allowed (it, low ∷ high ∷ others) f
    → f.operator ≡ between
    → cut "," low ≡ none
    → apply_filters (f ∷ fs) ≡ apply_filters fs
unfolding apply_filters scalar_of
apply_filters_drops lower allowed it low high others f fs n range plain = ground arith

-- What FromProto lets through: every clause is on a column of the allowlist, a page has between 1 and
-- 200 rows, and no filter carries a list of values, so an `in` filter holds of no row.
abbrev pub IsColumn : FieldSet → String → Type 0
IsColumn allowed col = (name : String) × (resolve allowed name ≡ some col)

proto_filters-All :
    (allowed : FieldSet) (fs : List ProtoFilter)
    → All (λ f. IsColumn allowed f.field × (f.values ≡ [])) (proto_filters allowed fs)
unfolding proto_filters
proto_filters-All allowed [] = tt
proto_filters-All allowed (f ∷ fs) = elim (Option-cases (resolve allowed f.id)) [
  | inl missing ↦ rw (missing, All, proto_filters) (proto_filters-All allowed fs)
  | inr (col, found) ↦
      rw (found, All, proto_filters) (((f.id, found), refl), proto_filters-All allowed fs)
]

proto_page_size_bounds :
    (q : ProtoQuery) → (1 ≤ proto_page_size q.page) × (proto_page_size q.page ≤ max_page_size)
unfolding proto_page_size
proto_page_size_bounds q = ground arith

-- Of a gRPC listing, every filter is on a column of the allowlist and carries no list of values, and
-- a page has between 1 and 200 rows.
pub from_proto-All :
    (q : Option ProtoQuery) (allowed : FieldSet)
    → All (λ f. IsColumn allowed f.field × (f.values ≡ [])) (from_proto q allowed).filters
      × (1 ≤ (from_proto q allowed).page_size)
      × ((from_proto q allowed).page_size ≤ max_page_size)
unfolding from_proto
from_proto-All none allowed = (tt, omega arith, omega arith)
from_proto-All (some q) allowed = (
  proto_filters-All allowed q.filtered,
  (proto_page_size_bounds q).0,
  (proto_page_size_bounds q).1,
)

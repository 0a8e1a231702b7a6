-- ===== src/Query/Proto.antt =====
-- FromProto (internal/platform/query/query.go): the request of a gRPC listing. The getters of a nil
-- message give zero values; `int(…)` of a 32-bit field is its value.
use authentication_service.Prelude.{
  ℕ, String, Bool, List, [], ◌∷◌, Option, none, some, min, nat_eq, if◌then◌else◌,
}
use authentication_service.Prelude.Int.{ℤ, pos, negsuc}
use authentication_service.Prelude.Text.{trim_space}
use authentication_service.Query.Types.{
  Operator, eq, neq, like, in_list, gt, gte, lt, lte, between, Filter, Sort, Params, FieldSet,
  resolve, default_page_size, max_page_size,
}

-- commonv1.Operator, and a number that is none of its constants.
pub data ProtoOperator : Type 0 where
  unspecified p_eq p_neq p_like p_in p_gt p_gte p_lt p_lte p_between unrecognised : ProtoOperator

pub record ProtoFilter : Type 0 where
  pub id : String
  pub value : String
  pub operator : ProtoOperator

pub record ProtoSort : Type 0 where
  pub id : String
  pub desc : Bool

-- The page and the page size, and the lists.
pub record ProtoQuery : Type 0 where
  pub page : Option (ℤ × ℤ)
  pub filtered : List ProtoFilter
  pub sorted : List ProtoSort
  pub search : String

-- operatorFromProto
unfoldable pub operator_from_proto : ProtoOperator → Operator
operator_from_proto p_neq = neq
operator_from_proto p_like = like
operator_from_proto p_in = in_list
operator_from_proto p_gt = gt
operator_from_proto p_gte = gte
operator_from_proto p_lt = lt
operator_from_proto p_lte = lte
operator_from_proto p_between = between
operator_from_proto _ = eq

-- The two loops: a field that is not allowed is passed over.
unfoldable pub proto_filters : FieldSet → List ProtoFilter → List Filter
unfolding operator_from_proto
proto_filters allowed [] = []
proto_filters allowed (f ∷ fs) = elim (resolve allowed f.id) [
  | none ↦ proto_filters allowed fs
  | some col ↦
      record {
        field = col;
        value = f.value;
        operator = operator_from_proto f.operator;
        values = [];
      }
      ∷ proto_filters allowed fs
]

unfoldable pub proto_sorts : FieldSet → List ProtoSort → List Sort
proto_sorts allowed [] = []
proto_sorts allowed (s ∷ ss) = elim (resolve allowed s.id) [
  | none ↦ proto_sorts allowed ss
  | some col ↦ record { field = col; desc = s.desc } ∷ proto_sorts allowed ss
]

unfoldable pub proto_page : Option (ℤ × ℤ) → ℕ
proto_page none = 0
proto_page (some (pos n, _)) = n
proto_page (some (negsuc n, _)) = 0

unfoldable pub proto_page_size : Option (ℤ × ℤ) → ℕ
proto_page_size none = default_page_size
proto_page_size (some (_, pos n)) = if nat_eq n 0 then default_page_size else min n max_page_size
proto_page_size (some (_, negsuc n)) = default_page_size

-- FromProto; none is a nil query.
unfoldable pub from_proto : Option ProtoQuery → FieldSet → Params
unfolding proto_page proto_page_size proto_filters proto_sorts
from_proto none allowed = record {
  err = none;
  page = 0;
  page_size = default_page_size;
  filters = [];
  sorts = [];
  search = "";
}
from_proto (some q) allowed = record {
  err = none;
  page = proto_page q.page;
  page_size = proto_page_size q.page;
  filters = proto_filters allowed q.filtered;
  sorts = proto_sorts allowed q.sorted;
  search = trim_space q.search;
}

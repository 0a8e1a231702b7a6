-- ===== src/Query/Allowlist.antt =====
-- What a listing request may ask for: the allowlist is a boundary, and nothing is dropped silently.
use authentication_service.Prelude.{
  String, false, ◌&&◌, List, [], ◌∷◌, some, Pairs, ◌≡◌, ◌↔◌, inl, inr, refl, arith,
}
use mathlib.Core.Path.{subst}
use authentication_service.Query.Types.{Filter, Sort, FieldSet, resolve}
use authentication_service.Query.Parse.{
  RawFilter, RawSort, ok, Result-cases, is_in, is_nil, is_unknown, scalar_of, list_of,
  first_non_empty, normalise_operator, build_filter, parse_filter, parse_items, parse_sort_items,
}

-- A clause that stands for an item with the values `given`: an allowed column, an operator that the
-- server implements, the item's own values, and at least one of them for `in`.
pub record Normalises (lower : String → String) (allowed : FieldSet)
    (item : RawFilter × List String) (f : Filter) : Type 0 where
  pub allows : resolve allowed item.0.id ≡ some f.field
  pub operates :
      f.operator ≡ normalise_operator lower allowed (first_non_empty item.0.operator item.0.kind)
  pub is_implemented : is_unknown f.operator ≡ false
  pub value : f.value ≡ scalar_of item.1
  pub values : f.values ≡ list_of item.1
  pub is_filled : (is_in f.operator && is_nil f.values) ≡ false

module _ (lower : String → String) (allowed : FieldSet) where
  parse_filter_sound :
      (it : RawFilter) (given : List String) (f : Filter)
      → parse_filter lower allowed it given ≡ ok f
      → Normalises lower allowed (it, given) f
  unfolding parse_filter build_filter
  parse_filter_sound it given f h = ground arith

  parse_filter_complete :
      (it : RawFilter) (given : List String) (f : Filter)
      → Normalises lower allowed (it, given) f
      → parse_filter lower allowed it given ≡ ok f
  unfolding parse_filter build_filter
  parse_filter_complete it given f n = ground arith

  pub parse_items_sound :
      (items : List (RawFilter × List String)) (fs : List Filter)
      → parse_items lower allowed items ≡ ok fs
      → Pairs (Normalises lower allowed) items fs
  unfolding parse_items
  parse_items_sound [] fs h = ground arith
  parse_items_sound ((it, given) ∷ items) fs h =
      elim (Result-cases (parse_filter lower allowed it given)) [
        | inl (f, here) ↦ elim (Result-cases (parse_items lower allowed items)) [
          | inl (rest, later) ↦
              let same : f ∷ rest ≡ fs = ground arith in
              subst (Pairs (Normalises lower allowed) ((it, given) ∷ items)) same
                (parse_filter_sound it given f here, parse_items_sound items rest later)
          | inr (e, bad) ↦ absurd (ground arith)
        ]
        | inr (e, bad) ↦ absurd (ground arith)
      ]

  pub parse_items_complete :
      (items : List (RawFilter × List String)) (fs : List Filter)
      → Pairs (Normalises lower allowed) items fs
      → parse_items lower allowed items ≡ ok fs
  unfolding parse_items
  parse_items_complete [] [] h = refl
  parse_items_complete [] (f ∷ fs) h = absurd h
  parse_items_complete (it ∷ items) [] h = absurd h
  parse_items_complete ((it, given) ∷ items) (f ∷ fs) (here, later) =
      rw (parse_filter_complete it given f here) (rw (parse_items_complete items fs later))

-- A sort clause that stands for an item.
abbrev pub Sorts : FieldSet → RawSort → Sort → Type 0
Sorts allowed item s = (resolve allowed item.id ≡ some s.field) × (s.desc ≡ item.desc)

module _ (allowed : FieldSet) where
  pub parse_sort_items_iff :
      (items : List RawSort) (ss : List Sort)
      → (parse_sort_items allowed items ≡ ok ss) ↔ Pairs (Sorts allowed) items ss
  unfolding parse_sort_items
  parse_sort_items_iff [] [] = ground arith
  parse_sort_items_iff [] (s ∷ ss) = ground arith
  parse_sort_items_iff (it ∷ items) [] = ground arith
  parse_sort_items_iff (it ∷ items) (s ∷ ss) =
      elim (Result-cases (parse_sort_items allowed items)) [
        | inl (rest, later) ↦ ground (arith, parse_sort_items_iff items ss)
        | inr (e, bad) ↦ ground (arith, parse_sort_items_iff items ss)
      ]

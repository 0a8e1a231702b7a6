-- ===== src/Query/Understood.antt =====
-- The whole of Parse: a request is understood in full, or answered with an error and no clause.
use authentication_service.Prelude.{
  String, List, [], Option, none, some, ◌==◌, eq_iff, Pairs, ◌≡◌, ◌≢◌, ◌↔◌, ◌⊎◌, inl, inr, arith,
  Option-cases, Bool-cases,
}
use mathlib.Core.Path.{subst}
use authentication_service.Query.Types.{Filter, Sort, QueryError, Params, FieldSet}
use authentication_service.Query.Parse.{
  RawFilter, RawSort, ok, Result-cases, decode_items, parse_filters, parse_sorts, parse,
}
use authentication_service.Query.Allowlist.{
  Normalises, Sorts, parse_items_sound, parse_items_complete, parse_sort_items_iff,
}

module _ (lower : String → String) (decode_filters : String → Option (List RawFilter))
    (decode_sorts : String → Option (List RawSort)) (allowed : FieldSet) where
  -- The clauses stand for the items of the text, one for one; an empty text has none.
  abbrev pub Understands : String → List Filter → Type 0
  Understands raw fs =
      (raw ≡ "") × (fs ≡ [])
      ⊎ (raw ≢ "")
        × ((items : List (RawFilter × List String)) × (decode_items lower decode_filters
                decode_sorts allowed raw
              ≡ some items)
            × Pairs (Normalises lower allowed) items fs)

  abbrev pub Orders : String → List Sort → Type 0
  Orders raw ss =
      (raw ≡ "") × (ss ≡ [])
      ⊎ (raw ≢ "")
        × ((items : List RawSort) × (decode_sorts raw ≡ some items)
            × Pairs (Sorts allowed) items ss)

  -- A filter list is accepted exactly when every item names an allowed field, an operator that the
  -- server implements, and a value where `in` needs one; and then each item has its clause.
  pub parse_filters_iff :
      (raw : String) (fs : List Filter)
      → (parse_filters lower decode_filters decode_sorts allowed raw ≡ ok fs) ↔ Understands raw fs
  unfolding parse_filters
  parse_filters_iff raw fs = elim (Bool-cases (raw == "")) [
    | inl empty ↦ ground (arith, eq_iff raw "")
    | inr filled ↦
        elim (Option-cases (decode_items lower decode_filters decode_sorts allowed raw)) [
          | inl bad ↦ ground (arith, eq_iff raw "")
          | inr (items, good) ↦ (
            λ h. inr (
              ground (arith, eq_iff raw ""),
              (items, good, parse_items_sound lower allowed items fs (ground arith)),
            ),
            λ u. elim u [
              | inl (blank, _) ↦ absurd (ground (arith, eq_iff raw ""))
              | inr (_, (others, read, pairs)) ↦
                  ground (arith, parse_items_complete lower allowed others fs pairs)
            ],
          )
        ]
  ]

  parse_sorts_sound :
      (raw : String) (ss : List Sort)
      → parse_sorts lower decode_filters decode_sorts allowed raw ≡ ok ss
      → Orders raw ss
  unfolding parse_sorts
  parse_sorts_sound raw ss h = elim (Bool-cases (raw == "")) [
    | inl empty ↦ ground (arith, eq_iff raw "")
    | inr filled ↦ elim (Option-cases (decode_sorts raw)) [
      | inl bad ↦ absurd (ground arith)
      | inr (items, good) ↦ inr (
        ground (arith, eq_iff raw ""),
        (items, good, (parse_sort_items_iff allowed items ss).0 (ground arith)),
      )
    ]
  ]

  -- A parsed request either carries no error, and its filters and sorts stand for everything that
  -- was asked, or it carries an error and neither a filter nor a sort.
  pub parse_lem :
      (page_str page_size_str filtered sorted query : String) (p : Params)
      → parse lower decode_filters decode_sorts allowed page_str page_size_str filtered sorted query
        ≡ p
      → (p.err ≡ none) × Understands filtered p.filters × Orders sorted p.sorts
        ⊎ ((e : QueryError) × (p.err ≡ some e) × (p.filters ≡ []) × (p.sorts ≡ []))
  unfolding parse
  parse_lem page_str page_size_str filtered sorted query p h =
      elim (Result-cases (parse_filters lower decode_filters decode_sorts allowed filtered)) [
        | inl (fs, fine) ↦
            elim (Result-cases (parse_sorts lower decode_filters decode_sorts allowed sorted)) [
              | inl (ss, good) ↦
                  let understood = (parse_filters_iff filtered fs).0 fine in
                  let ordered = parse_sorts_sound sorted ss good in
                  let clean : p.err ≡ none = ground arith in
                  let same : fs ≡ p.filters = ground arith in
                  let alike : ss ≡ p.sorts = ground arith in
                  inl (
                    clean,
                    subst (Understands filtered) same understood,
                    subst (Orders sorted) alike ordered,
                  )
              | inr (e, bad) ↦ inr (e, ground arith, ground arith, ground arith)
            ]
        | inr (e, bad) ↦ inr (e, ground arith, ground arith, ground arith)
      ]

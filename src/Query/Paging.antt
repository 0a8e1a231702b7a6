-- ===== src/Query/Paging.antt =====
-- Paging: the clamps of Parse, the row offset, and the page count.
use authentication_service.Prelude.{
  ℕ, ◌+◌, ◌*◌, ◌≤◌, ◌<◌, String, Bool, true, false, List, Option, ◌≡◌, arith, inl, inr,
}
use authentication_service.Prelude.Int.{ℤ, pos, negsuc}
use authentication_service.Query.Atoi.{atoi}
use authentication_service.Query.Types.{Params, FieldSet, offset, total_pages, max_page_size}
use authentication_service.Query.Parse.{
  RawFilter, RawSort, parse_filters, parse_sorts, Result-cases, parse, page_size_of,
}
use native.Mathlib.Nat.{div-add-mod', mod-lt}

page_size_of_bounds : (r : ℤ × Bool) → (1 ≤ page_size_of r) × (page_size_of r ≤ max_page_size)
unfolding page_size_of
page_size_of_bounds (pos n, true) = ground arith
page_size_of_bounds (pos n, false) = omega arith
page_size_of_bounds (negsuc n, true) = omega arith
page_size_of_bounds (negsuc n, false) = omega arith

module _ (lower : String → String) (decode_filters : String → Option (List RawFilter))
    (decode_sorts : String → Option (List RawSort)) (allowed : FieldSet) where
  -- Whatever the request says, a page has between 1 and 200 rows.
  pub parse-page_size_bounds :
      (page_str page_size_str filtered sorted query : String)
      → (1
          ≤ (parse lower decode_filters decode_sorts allowed page_str page_size_str filtered sorted
              query).page_size)
        × ((parse lower decode_filters decode_sorts allowed page_str page_size_str filtered sorted
              query).page_size
            ≤ max_page_size)
  unfolding parse
  parse-page_size_bounds page_str page_size_str filtered sorted query =
      elim (Result-cases (parse_filters lower decode_filters decode_sorts allowed filtered)) [
        | inl (filters, fine) ↦
            elim (Result-cases (parse_sorts lower decode_filters decode_sorts allowed sorted)) [
              | inl (sorts, good) ↦
                  rw (fine, good, parse) (page_size_of_bounds (atoi page_size_str))
              | inr (e, bad) ↦ rw (fine, bad, parse) (page_size_of_bounds (atoi page_size_str))
            ]
        | inr (e, bad) ↦ rw (bad, parse) (page_size_of_bounds (atoi page_size_str))
      ]

-- The page count is the quotient rounded up: the pages hold every row, and no page less would.
pub total_pages_bounds :
    (p : Params) (total : ℕ)
    → 1 ≤ p.page_size
    → (total ≤ total_pages p total * p.page_size)
      × (total_pages p total * p.page_size < total + p.page_size)
unfolding total_pages
total_pages_bounds p total h =
    let whole = div-add-mod' total p.page_size in let part = mod-lt total h in grind arith

-- The offset is the product of page and page size, where that fits in 63 bits.
pub offset_exact :
    (p : Params)
    → p.page * p.page_size < 9223372036854775808
    → offset p ≡ pos (p.page * p.page_size)
unfolding offset
offset_exact p h = ground arith

-- ===== src/Import/Climbing.antt =====
-- The walk from an account to its root ends, and at the right place.
use authentication_service.Prelude.{
  ℕ, zero, suc, ◌+◌, ◌≤◌, ◌<◌, String, true, false, not, ◌||◌, List, [], ◌∷◌, any, none, some, ◌==◌,
  eq_iff, contains, contains_iff, length, All-Elem, if◌then◌else◌, ◌≡◌, ◌≢◌, refl, ap, arith, All,
  Bool-cases, Option-cases, inl, inr,
}
use mathlib.Core.Path.{subst}
use authentication_service.Prelude.Dict.{Dict, lookup, insert, lookup-insert}
use authentication_service.Auth.Store.{is_nil}
use authentication_service.Import.Roots.{
  ExportRow, by_legacy, Ending, top, circular, orphaned, parent_of, walk, root_of,
}

-- The keys of the table that have not been seen.
unseen : List String → Dict String → ℕ
unseen seen [] = 0
unseen seen ((k, v) ∷ table) = (if contains seen k then 0 else 1) + unseen seen table

unseen_le :
    (seen : List String) (c : String) (table : Dict String)
    → unseen (c ∷ seen) table ≤ unseen seen table
unfolding unseen contains
unseen_le seen c [] = omega arith
unseen_le seen c ((k, v) ∷ table) = ground (arith, unseen_le seen c table)

unseen_lt :
    (seen : List String) (c : String) (table : Dict String)
    → is_nil (lookup c table) ≡ false
    → contains seen c ≡ false
    → unseen (c ∷ seen) table < unseen seen table
unfolding unseen contains lookup
unseen_lt seen c [] known fresh = absurd (cc)
unseen_lt seen c ((k, v) ∷ table) known fresh = elim (Bool-cases (k == c)) [
  | inl here ↦
      let same = (eq_iff k c).0 here in
      ground (arith, unseen_le seen c table, fresh, same, eq_iff c k, ap (contains seen) same)
  | inr other ↦ ground (arith, unseen_lt seen c table, known, fresh, other)
]

unseen-length : (table : Dict String) → unseen [] table ≤ length table
unfolding unseen contains
unseen-length [] = omega arith
unseen-length (e ∷ table) = ground (arith, unseen-length table)

module _ (table : Dict String) where
  walk-some :
      (fuel : ℕ) (seen : List String) (cur : String)
      → is_nil (lookup cur table) ≡ false
      → unseen seen table < fuel
      → is_nil (walk table fuel seen cur) ≡ false
  unfolding walk
  walk-some zero seen cur known enough = absurd (omega (arith, enough))
  walk-some (suc fuel) seen cur known enough = ground (
    arith,
    known,
    enough,
    unseen_lt seen cur table,
    walk-some fuel (cur ∷ seen) (parent_of table cur),
  )

  -- One account is the parent of another, and in the export.
  abbrev pub IsParent : String → String → Type 0
  IsParent child parent =
      (parent_of table child ≡ parent) × (parent ≢ "") × (is_nil (lookup parent table) ≡ false)

  -- An account is above another, or is that account.
  pub data Climbs (from : String) : String → Type 0 where
    stay : Climbs from from
    rise : {mid to : String} → Climbs from mid → IsParent mid to → Climbs from to

  -- What is true of the end of a walk.
  abbrev pub Ends : String → Ending → Type 0
  Ends root top = parent_of table root ≡ ""
  Ends root circular = (last : String) × Climbs root last × IsParent last root
  Ends root orphaned = (parent_of table root ≢ "") × (lookup (parent_of table root) table ≡ none)

  -- Those below an account are below its parent.
  Below : String → String → Type 0
  Below to from = (last : String) × Climbs from last × IsParent last to

  All-Below :
      (cur to : String) (seen : List String)
      → IsParent cur to
      → All (Below cur) seen
      → All (Below to) seen
  unfolding Below
  All-Below cur to [] up h = tt
  All-Below cur to (s ∷ seen) up ((last, climbs, next), h) =
      ((cur, rise climbs next, up), All-Below cur to seen up h)

  walk-Ends :
      (fuel : ℕ) (seen : List String) (id cur root : String) (how : Ending)
      → All (Below cur) seen
      → Climbs id cur
      → walk table fuel seen cur ≡ some (root, how)
      → Climbs id root × Ends root how
  unfolding walk Below
  walk-Ends zero seen id cur root how below climbs h = absurd (cc)
  walk-Ends (suc fuel) seen id cur root how below climbs h = elim (Bool-cases (contains seen cur)) [
    | inl again ↦
        let (is, so) : (cur ≡ root) × (circular ≡ how) = ground (arith, h, again) in
        let round = All-Elem (Below cur) cur seen below ((contains_iff seen cur).0 again) in
        (subst (Climbs id) is climbs, subst (λ e. Ends root e) so (subst (λ c. Below c c) is round))
    | inr fresh ↦ elim (Bool-cases (parent_of table cur == "")) [
      | inl none_above ↦
          let (is, so) : (cur ≡ root) × (top ≡ how) = ground (arith, h, fresh, none_above) in
          (
            subst (Climbs id) is climbs,
            subst (λ e. Ends root e) so
                (subst (λ c. parent_of table c ≡ "") is
                  ((eq_iff (parent_of table cur) "").0 none_above)),
          )
      | inr above ↦
          let named : parent_of table cur ≢ "" =
            ground (arith, above, eq_iff (parent_of table cur) "") in
          elim (Option-cases (lookup (parent_of table cur) table)) [
            | inl missing ↦
                let (is, so) : (cur ≡ root) × (orphaned ≡ how) =
                  ground (arith, h, fresh, above, missing) in
                (
                  subst (Climbs id) is climbs,
                  subst (λ e. Ends root e) so
                      (subst
                        (λ c. (parent_of table c ≢ "") × (lookup (parent_of table c) table ≡ none))
                        is (named, missing)),
                )
            | inr (parent, known) ↦
                let up : IsParent cur (parent_of table cur) =
                  (refl, named, ground (arith, known)) in
                walk-Ends fuel (cur ∷ seen) id (parent_of table cur) root how
                  ((cur, stay, up), All-Below cur (parent_of table cur) seen up below)
                  (rise climbs up) (ground (arith, h, fresh, above, known))
          ]
    ]
  ]

by_legacy-lookup :
    (id : String) (rows : List ExportRow) (m : Dict String)
    → (not (is_nil (lookup id m)) || any (λ r. r.id == id) rows) ≡ true
    → is_nil (lookup id (by_legacy rows m)) ≡ false
unfolding by_legacy
by_legacy-lookup id [] m h = ground (arith, h)
by_legacy-lookup id (r ∷ rows) m h =
    by_legacy-lookup id rows (insert r.id r.parent m)
      (ground (arith, h, lookup-insert r.id id r.parent m))

-- The walk from every account of the export ends within its turns, at an account that it has climbed to:
-- one with no parent, one that is above itself, or one whose parent is not in the export.
pub root_of-Ends :
    (rows : List ExportRow) (id : String)
    → any (λ r. r.id == id) rows ≡ true
    → (root : String) × (how : Ending) × (root_of rows id ≡ some (root, how))
      × Climbs (by_legacy rows []) id root
      × Ends (by_legacy rows []) root how
unfolding root_of lookup
root_of-Ends rows id there =
    let table = by_legacy rows [] in
    let fuel = suc (length table) in
    let known = by_legacy-lookup id rows [] (ground (arith, there)) in
    let enough : unseen [] table < fuel = omega (arith, unseen-length table) in
    elim (Option-cases (walk table fuel [] id)) [
      | inl stuck ↦ absurd (ground (arith, stuck, walk-some table fuel [] id known enough))
      | inr ((root, how), found) ↦
          let (climbs, ends) = walk-Ends table fuel [] id id root how tt stay found in
          (root, how, found, climbs, ends)
    ]

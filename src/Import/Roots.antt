-- ===== src/Import/Roots.antt =====
-- The second pass of build: which root each account of the export hangs from. The map `rootOf` is read
-- once it is full, so the root of an account is a function of the export.
use authentication_service.Prelude.{
  ℕ, zero, suc, String, List, [], ◌∷◌, Option, none, some, ◌==◌, contains, length, if◌then◌else◌,
}
use authentication_service.Prelude.Dict.{Dict, lookup, insert}
use authentication_service.Auth.Store.{is_nil}

-- What `get` reads of `_id` and `parent`.
pub record ExportRow : Type 0 where
  pub id : String
  pub parent : String

-- The loop that fills byLegacy, with the parents only.
unfoldable pub by_legacy : List ExportRow → Dict String → Dict String
unfolding insert
by_legacy [] m = m
by_legacy (r ∷ rows) m = by_legacy rows (insert r.id r.parent m)

-- How a walk ends: at an account with no parent, at one that it has seen, or below a missing parent.
pub data Ending : Type 0 where
  top circular orphaned : Ending

abbrev pub or_no_parent : Option String → String
or_no_parent none = ""
or_no_parent (some parent) = parent

module _ (table : Dict String) where
  -- `byLegacy[cur].get("parent")`
  unfoldable pub parent_of : String → String
  unfolding lookup
  parent_of cur = or_no_parent (lookup cur table)

  -- The inner loop, in at most `fuel` turns.
  unfoldable pub walk : ℕ → List String → String → Option (String × Ending)
  unfolding parent_of contains lookup
  walk zero seen cur = none
  walk (suc fuel) seen cur =
      let further = walk fuel (cur ∷ seen) (parent_of cur) in
      if contains seen cur
      then some (cur, circular)
      else if parent_of cur == ""
      then some (cur, top)
      else if is_nil (lookup (parent_of cur) table)
      then some (cur, orphaned)
      else further

-- `rootOf[id]`, with a turn for each account of the export and one more.
unfoldable pub root_of : List ExportRow → String → Option (String × Ending)
unfolding by_legacy walk
root_of rows id = let table = by_legacy rows [] in walk table (suc (length table)) [] id

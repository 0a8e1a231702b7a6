-- ===== src/Revocation/Held.antt =====
-- The in-memory list that every service keeps (internal/platform/revocation/revocation.go). Times
-- are nanoseconds since Go's zero time, so 0 is the zero time. The mutex makes each method one
-- atomic step, and a method is a function on the list.
use authentication_service.Prelude.{
  ℕ, ◌-◌, String, Bool, true, false, not, ◌&&◌, List, [], ◌∷◌, none, some, ◌==◌, ltb, length,
  if◌then◌else◌,
}
use authentication_service.Prelude.Dict.{Dict, lookup, insert, delete_if}

abbrev pub Time : Type 0
Time = ℕ

-- `Kind` is a string: a value beside the three constants is `other`.
pub data Kind : Type 0 where
  session : Kind
  user : Kind
  company : Kind
  other : String → Kind

pub record Event : Type 0 where
  pub kind : Kind
  pub id : String
  pub at : Time

pub record RevocationList : Type 0 where
  pub sessions : Dict Time
  pub users : Dict Time
  pub companies : Dict Time
  pub degraded : Bool

-- NewList
unfoldable pub new_list : RevocationList
new_list = record { sessions = []; users = []; companies = []; degraded = false }

-- `_, ended := m[id]; ended`, for an id that is not empty.
unfoldable pub ended : Dict Time → String → Bool
unfolding lookup
ended m id = not (id == "") && elim (lookup id m) [ none ↦ false | some _ ↦ true ]

-- `cutoff, ok := m[id]; ok && issuedAt.Before(cutoff)`, for an id that is not empty.
unfoldable pub cut_off : Dict Time → String → Time → Bool
unfolding lookup
cut_off m id issued_at =
    not (id == "") && elim (lookup id m) [ none ↦ false | some cutoff ↦ ltb issued_at cutoff ]

-- Revoked
unfoldable pub revoked : RevocationList → String → String → String → Time → Bool
revoked l session_id user_id company_id issued_at =
    if ended l.sessions session_id
    then true
    else if cut_off l.users user_id issued_at
    then true
    else if cut_off l.companies company_id issued_at
    then true
    else false

-- `if cur, ok := m[id]; !ok || at.After(cur) { m[id] = at }`
unfoldable pub raise_cutoff : String → Time → Dict Time → Dict Time
unfolding lookup insert
raise_cutoff id at m = elim (lookup id m) [
  | none ↦ insert id at m
  | some cur ↦ if ltb cur at then insert id at m else m
]

-- The switch of Apply.
unfoldable pub apply_kind : Kind → String → Time → RevocationList → RevocationList
apply_kind session id at l = record l { sessions = insert id at l.sessions }
apply_kind user id at l = record l { users = raise_cutoff id at l.users }
apply_kind company id at l = record l { companies = raise_cutoff id at l.companies }
apply_kind (other _) id at l = l

-- Apply
unfoldable pub apply : Event → RevocationList → RevocationList
unfolding apply_kind
apply e l = apply_kind e.kind e.id e.at l

-- The loop of Replace.
unfoldable pub apply_all : List Event → RevocationList → RevocationList
apply_all [] l = l
apply_all (e ∷ es) l = apply_all es (apply e l)

-- Replace
unfoldable pub replace : List Event → RevocationList → RevocationList
replace events l =
    let fresh = apply_all events new_list in
    record {
      sessions = fresh.sessions;
      users = fresh.users;
      companies = fresh.companies;
      degraded = false;
    }

-- Prune, at the time `now`. A cutoff before the zero time drops nothing, as does the cutoff 0.
unfoldable pub prune : Time → ℕ → RevocationList → RevocationList
prune now max_token_life l =
    let cutoff = now - max_token_life in
    record l {
      sessions = delete_if (λ at. ltb at cutoff) l.sessions;
      users = delete_if (λ at. ltb at cutoff) l.users;
      companies = delete_if (λ at. ltb at cutoff) l.companies;
    }

-- MarkDegraded: the new list, and whether the outage is announced in the log.
unfoldable pub mark_degraded : RevocationList → RevocationList × Bool
mark_degraded l = (record l { degraded = true }, not l.degraded)

-- Size
unfoldable pub size : RevocationList → ℕ × ℕ × ℕ
size l = (length l.sessions, length l.users, length l.companies)

-- NoopChecker
unfoldable pub noop_revoked : String → String → String → Time → Bool
noop_revoked session_id user_id company_id issued_at = false

-- ===== src/Auth/Sessions.antt =====
-- SessionRepository and the look-ups of the other tables (internal/repository/repositories.go and
-- user_repository.go). `First` takes the first row in the order of the table.
use authentication_service.Prelude.{
  String, Bool, false, not, ◌&&◌, ◌||◌, List, [], ◌∷◌, ◌++◌, map, Option, none, some, ◌==◌, nat_eq,
  keep, if◌then◌else◌,
}
use authentication_service.Prelude.Text.{trim_space}
use authentication_service.Revocation.Held.{Time, Event, session, user}
use authentication_service.Auth.Store.{Uuid, User, Session, ApiKey, Company, Store, is_nil}

unfoldable pub first {ℓ} : {A : Type ℓ} → (A → Bool) → List A → Option A
first p [] = none
first p (x ∷ xs) = if p x then some x else first p xs

abbrev pub is_text : Option String → String → Bool
is_text none s = false
is_text (some t) s = t == s

-- The same of a CITEXT column, which compares what `fold` makes of the values: the lower-casing of the
-- database.
abbrev pub is_citext : (String → String) → Option String → String → Bool
is_citext fold none s = false
is_citext fold (some t) s = fold t == fold s

-- FindByID
unfoldable pub find_user : Uuid → Store → Option User
unfolding first
find_user id s = first (λ u. nat_eq u.id id) s.users

-- FindByIdentifier: the email and the username are CITEXT, the phone is not.
unfoldable pub find_by_identifier : (String → String) → String → Store → Option User
unfolding first trim_space
find_by_identifier fold identifier s =
    let trimmed = trim_space identifier in
    if trimmed == ""
    then none
    else first
        (λ u.
          is_citext fold u.email trimmed
          || (is_citext fold u.username trimmed || is_text u.phone trimmed))
        s.users

-- FindByRefreshHash, FindByTokenID
unfoldable pub find_by_refresh_hash : String → List Session → Option Session
unfolding first
find_by_refresh_hash hash = first (λ x. is_text x.refresh_hash hash)

unfoldable pub find_by_token_id : Uuid → List Session → Option Session
unfolding first
find_by_token_id id = first (λ x. nat_eq x.token_id id)

-- FindByHash, CompanyOf
unfoldable pub find_key : String → Store → Option ApiKey
unfolding first
find_key hash s = first (λ k. k.key_hash == hash) s.api_keys

unfoldable pub find_company : Uuid → Store → Option Company
unfolding first
find_company id s = first (λ c. nat_eq c.id id) s.companies

-- `UPDATE sessions SET revoked_at = now WHERE p AND revoked_at IS NULL`, of one row and of all.
unfoldable pub revoke_row : Time → (Session → Bool) → Session → Session
revoke_row now p x = if p x && is_nil x.revoked_at then record x { revoked_at = some now } else x

unfoldable pub revoke_where : Time → (Session → Bool) → List Session → List Session
revoke_where now p [] = []
revoke_where now p (x ∷ xs) = revoke_row now p x ∷ revoke_where now p xs

-- Create
unfoldable pub create_session : Session → Store → Store
create_session new s = record s { sessions = s.sessions ++ new ∷ [] }

-- Revoke
unfoldable pub revoke_session : Time → Uuid → Store → Store
revoke_session now id s = record s {
  sessions = revoke_where now (λ x. nat_eq x.token_id id) s.sessions;
}

-- The rows that RevokeAllForUser affects.
unfoldable pub live_of : Uuid → Session → Bool
live_of id x = nat_eq x.user_id id && is_nil x.revoked_at

-- RevokeAllForUser, and its announcement; `text` renders the user's id.
unfoldable pub revoke_all : Time → (Uuid → String) → Uuid → Store → Store
revoke_all now text id s = record s {
  sessions = revoke_where now (λ x. nat_eq x.user_id id) s.sessions;
  announced = s.announced ++ record { kind = user; id = text id; at = now } ∷ [];
}

-- The rows that RevokeOtherSingleDeviceSessions affects.
unfoldable pub is_other_device : Uuid → Uuid → Session → Bool
is_other_device id kept x = nat_eq x.user_id id && (x.single_device && not (nat_eq x.token_id kept))

unfoldable pub evictions : Time → (Uuid → String) → List Session → List Event
evictions now text = map (λ x. record { kind = session; id = text x.token_id; at = now })

-- RevokeOtherSingleDeviceSessions, and one announcement for each evicted session.
unfoldable pub revoke_others : Time → (Uuid → String) → Uuid → Uuid → Store → Store
revoke_others now text id kept s = record s {
  sessions = revoke_where now (is_other_device id kept) s.sessions;
  announced =
      s.announced
      ++ evictions now text
          (keep (λ x. is_other_device id kept x && is_nil x.revoked_at) s.sessions);
}

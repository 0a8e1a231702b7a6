-- ===== src/Revocation/Store.antt =====
-- The store of announcements in Redis, and what a service does with it
-- (internal/platform/revocation/redis.go). `encode` and `unmarshal` stand for encoding/json on an
-- event. Redis is a map from keys to a payload and the time at which it expires.
use authentication_service.Prelude.{
  ℕ, ◌+◌, String, ◌||◌, List, [], ◌∷◌, Option, none, some, ◌==◌, ltb, nat_eq, if◌then◌else◌,
}
use Prim.Native.String.{◌++◌ as join}
use authentication_service.Prelude.Dict.{Dict, insert}
use authentication_service.Revocation.Held.{
  Time, Kind, session, user, company, other, Event, RevocationList, apply, replace, mark_degraded,
}

unfoldable pub kind_text : Kind → String
kind_text session = "session"
kind_text user = "user"
kind_text company = "company"
kind_text (other s) = s

-- key
unfoldable pub key : Event → String
unfolding kind_text
key e = join "revoked:" (join (kind_text e.kind) (join ":" e.id))

-- An event with no time is of now.
unfoldable pub dated : Time → Event → Event
dated now e = if nat_eq e.at 0 then record e { at = now } else e

abbrev pub Redis : Type 0
Redis = Dict (String × Time)

-- The durable part of Publish: `SET key payload EX life`.
unfoldable pub record_event : (Event → String) → ℕ → Time → Event → Redis → Redis
unfolding key insert dated
record_event encode life now e redis =
    let e' = dated now e in insert (key e') (encode e', now + life) redis

-- NewStore
unfoldable pub token_life : ℕ → ℕ → ℕ
token_life two_hours life = if nat_eq life 0 then two_hours else life

module _ (unmarshal : String → Option Event) where
  abbrev pub complete : Time → Event → Option Event
  complete now e = if kind_text e.kind == "" || e.id == "" then none else some (dated now e)

  -- Decode
  unfoldable pub decode : Time → String → Option Event
  unfolding kind_text dated
  decode now raw = elim (unmarshal raw) [ none ↦ none | some e ↦ complete now e ]

  abbrev pub add_event : Option Event → List Event → List Event
  add_event none events = events
  add_event (some e) events = e ∷ events

  -- All: a key that expired is not there, and a payload that does not decode is passed over.
  unfoldable pub all_events : Time → Redis → List Event
  unfolding decode
  all_events now [] = []
  all_events now ((k, (raw, expires)) ∷ rest) =
      let events = all_events now rest in
      if ltb now expires then add_event (decode now raw) events else events

  -- resync, with the answer of All, or none for an error.
  unfoldable pub resync : Option (List Event) → RevocationList → RevocationList
  unfolding replace mark_degraded
  resync none l = (mark_degraded l).0
  resync (some events) l = replace events l

  abbrev pub heard : Option Event → RevocationList → RevocationList
  heard none l = l
  heard (some e) l = apply e l

  -- A message of the channel.
  unfoldable pub hear : Time → String → RevocationList → RevocationList
  unfolding decode apply
  hear now raw l = heard (decode now raw) l

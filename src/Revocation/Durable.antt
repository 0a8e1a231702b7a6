-- ===== src/Revocation/Durable.antt =====
-- What a resync repairs, and what it cannot (internal/platform/revocation/redis.go).
use authentication_service.Prelude.{
  ℕ, ◌+◌, ◌≤◌, ◌<◌, String, true, false, [], ◌∷◌, Option, some, eq_iff, nat_eq_iff, ◌≡◌, ◌≢◌, refl,
  ap, arith,
}
use authentication_service.Prelude.Dict.{insert, remove}
use authentication_service.Revocation.Held.{
  Time, Event, user, RevocationList, new_list, revoked, apply_all,
}
use authentication_service.Revocation.Meaning.{hits, revoked-apply_all, revoked-replace}
use authentication_service.Revocation.Store.{
  Redis, key, kind_text, record_event, dated, decode, all_events, resync,
}

decode-encode :
    (encode : Event → String) (unmarshal : String → Option Event) (later : Time) (e : Event)
    → unmarshal (encode e) ≡ some e
    → kind_text e.kind ≢ ""
    → e.id ≢ ""
    → e.at ≢ 0
    → decode unmarshal later (encode e) ≡ some e
unfolding decode dated
decode-encode encode unmarshal later e reads named known timed =
    ground (arith, reads, eq_iff (kind_text e.kind) "", eq_iff e.id "", nat_eq_iff e.at 0)

dated_same : (now : Time) (e : Event) → e.at ≢ 0 → dated now e ≡ e
unfolding dated
dated_same now e timed = ground (arith, nat_eq_iff e.at 0)

record_event-insert :
    (encode : Event → String) (life now : ℕ) (e : Event) (redis : Redis)
    → e.at ≢ 0
    → record_event encode life now e redis ≡ insert (key e) (encode e, now + life) redis
unfolding record_event
record_event-insert encode life now e redis timed =
    ap (λ (d : Event). insert (key d) (encode d, now + life) redis) (dated_same now e timed)

all_events-record_event :
    (encode : Event → String) (unmarshal : String → Option Event) (life now later : ℕ) (e : Event)
    (redis : Redis)
    → unmarshal (encode e) ≡ some e
    → kind_text e.kind ≢ ""
    → e.id ≢ ""
    → e.at ≢ 0
    → later < now + life
    → all_events unmarshal later (record_event encode life now e redis)
      ≡ e ∷ all_events unmarshal later (remove (key e) redis)
unfolding all_events insert
all_events-record_event encode unmarshal life now later e redis reads named known timed soon =
    rw (record_event-insert encode life now e redis timed)
      (ground (arith, decode-encode encode unmarshal later e reads named known timed))

-- A recorded announcement survives the loss of its message: where its payload reads as the event, a
-- resync that succeeds before the entry expires refuses every token that it hits.
pub record_event-resync :
    (encode : Event → String) (unmarshal : String → Option Event) (life now later : ℕ) (e : Event)
    (redis : Redis) (l : RevocationList) (s u c : String) (t : Time)
    → unmarshal (encode e) ≡ some e
    → kind_text e.kind ≢ ""
    → e.id ≢ ""
    → e.at ≢ 0
    → later < now + life
    → hits e s u c t ≡ true
    → revoked
        (resync unmarshal
          (some (all_events unmarshal later (record_event encode life now e redis)))
          l)
        s
        u
        c
        t
      ≡ true
unfolding resync
record_event-resync encode unmarshal life now later e redis l s u c t reads named known timed soon
      hit =
    let rest = all_events unmarshal later (remove (key e) redis) in
    rw
      (all_events-record_event encode unmarshal life now later e redis reads named known timed soon)
      (ground (arith, hit, revoked-replace (e ∷ rest) l s u c t))

same_key :
    (id : String) (high low : Time)
    → key (record { kind = user; id = id; at = high })
      ≡ key (record { kind = user; id = id; at = low })
unfolding key
same_key id high low = refl

all_events-replaced :
    (encode : Event → String) (unmarshal : String → Option Event) (life now later : ℕ) (id : String)
    (high low : Time)
    → high ≢ 0
    → all_events unmarshal later (
        remove
          (key (record { kind = user; id = id; at = low }))
          (record_event encode life now (record { kind = user; id = id; at = high }) []))
      ≡ []
unfolding all_events insert remove
all_events-replaced encode unmarshal life now later id high low timed =
    let first : Event = record { kind = user; id = id; at = high } in
    let second : Event = record { kind = user; id = id; at = low } in
    rw (record_event-insert encode life now first [] timed)
      (ground (arith, eq_iff (key first) (key second), same_key id high low))

-- Two cutoffs of one user, the later one recorded first: a service that hears both refuses the tokens
-- between them, and a service that resyncs from the store does not, where the payload of the second
-- reads as that event: the second has overwritten the first.
pub record_event-overwrites :
    (encode : Event → String) (unmarshal : String → Option Event) (life now later : ℕ) (id : String)
    (high low t : Time) (l : RevocationList) (s c : String)
    → unmarshal (encode (record { kind = user; id = id; at = low }))
      ≡ some (record { kind = user; id = id; at = low })
    → id ≢ ""
    → low ≢ 0
    → low ≤ t
    → t < high
    → later < now + life
    → (revoked
          (apply_all
            (record { kind = user; id = id; at = high }
              ∷ record { kind = user; id = id; at = low }
              ∷ [])
            new_list)
          s
          id
          c
          t
        ≡ true)
      × (revoked
            (resync unmarshal
              (some (
                all_events unmarshal later (
                  record_event encode life now
                    (record { kind = user; id = id; at = low })
                    (record_event encode life now
                      (record { kind = user; id = id; at = high })
                      []))))
              l)
            s
            id
            c
            t
          ≡ false)
unfolding resync kind_text
record_event-overwrites encode unmarshal life now later id high low t l s c reads known timed before
      after soon =
    let first : Event = record { kind = user; id = id; at = high } in
    let second : Event = record { kind = user; id = id; at = low } in
    let stored =
      all_events-record_event encode unmarshal life now later second
        (record_event encode life now first []) reads (λ h. cc h) known timed soon in
    (
      ground (
        arith,
        eq_iff id "",
        eq_iff id id,
        revoked-apply_all (first ∷ second ∷ []) new_list s id c t,
      ),
      rw
          (
            stored,
            all_events-replaced encode unmarshal life now later id high low (omega (arith, after)),
          )
          (ground (arith, revoked-replace (second ∷ []) l s id c t)),
    )

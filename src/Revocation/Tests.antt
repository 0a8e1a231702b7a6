-- ===== src/Revocation/Tests.antt =====
-- Concrete announcements.
use authentication_service.Prelude.{
  ◌≡◌, refl, [], ◌∷◌, any, eq_iff, false, true, arith, String, Option, some,
}
use authentication_service.Prelude.Dict.{lookup, insert}
use authentication_service.Revocation.Held.{
  Event, RevocationList, session, user, new_list, apply_all, replace, revoked, apply, raise_cutoff,
  ended, cut_off,
}
use authentication_service.Revocation.Meaning.{hits, revoked-replace}
use authentication_service.Revocation.Store.{
  record_event, dated, key, kind_text, decode, all_events, resync, hear,
}
use authentication_service.Revocation.Watch.{World, Reach, here, next, publish, receive, start}
use authentication_service.Revocation.Justified.{Reach-justified}
use authentication_service.Revocation.Durable.{record_event-overwrites}

abbrev logged_out : Event
logged_out = record { kind = session; id = "s1"; at = 50 }

abbrev changed : Event
changed = record { kind = user; id = "u1"; at = 60 }

revoked-replace_example :
    revoked (replace (logged_out ∷ changed ∷ []) new_list) "s2" "u1" "c1" 55
    ≡ any (λ e. hits e "s2" "u1" "c1" 55) (logged_out ∷ changed ∷ [])
revoked-replace_example = revoked-replace (logged_out ∷ changed ∷ []) new_list "s2" "u1" "c1" 55

abbrev held_list : RevocationList
held_list = record {
  sessions = ("s1", 95) ∷ [];
  users = ("u1", 60) ∷ [];
  companies = ("c9", 40) ∷ [];
  degraded = false;
}

abbrev Codec : Type 0
Codec = String → Option Event

abbrev write_event : Event → String
write_event e = e.id

abbrev read_event : Codec
read_event raw = some (record { kind = user; id = raw; at = 60 })

-- The event is published, and its message heard.
abbrev published_world : World
published_world = record {
  now = 60;
  redis = ("revoked:user:u1", ("u1", 160)) ∷ [];
  inbox = "u1" ∷ [];
  list = new_list;
  published = changed ∷ [];
}

abbrev heard_world : World
heard_world = record published_world {
  inbox = [];
  list = record { sessions = []; users = ("u1", 60) ∷ []; companies = []; degraded = false };
}

started : Reach write_event read_event 100 (start 60) published_world
unfolding start record_event dated key kind_text insert
started = next here (publish (start 60) changed)

arrived : Reach write_event read_event 100 (start 60) heard_world
unfolding hear decode kind_text dated apply new_list insert raise_cutoff
arrived = next started (receive published_world "u1" [] refl)

Reach-justified_example : any (λ e. hits e "s2" "u1" "c1" 55) (changed ∷ []) ≡ true
unfolding revoked lookup ended cut_off
Reach-justified_example =
    Reach-justified write_event read_event 100 60 heard_world "s2" "u1" "c1" 55
      (λ e h. ground (arith, h)) (omega arith) arrived refl

abbrev later_cutoff : Event
later_cutoff = record { kind = user; id = "u1"; at = 80 }

record_event-overwrites_example :
    (revoked (apply_all (later_cutoff ∷ changed ∷ []) new_list) "s2" "u1" "c1" 70 ≡ true)
    × (revoked
          (resync read_event
            (some (
              all_events read_event 90 (
                record_event write_event 100 60 changed
                  (record_event write_event 100 60 later_cutoff []))))
            new_list)
          "s2"
          "u1"
          "c1"
          70
        ≡ false)
record_event-overwrites_example =
    record_event-overwrites write_event read_event 100 60 90 "u1" 80 60 70 new_list "s2" "c1" refl
      (λ h. ground (arith, h, eq_iff "u1" "")) (omega arith) (omega arith) (omega arith)
      (omega arith)

-- ===== src/Revocation/Watch.antt =====
-- The loop of Watch (internal/platform/revocation/redis.go) as steps of one service beside those that
-- publish: the clock, the keys of Redis, the messages under way to the service, and its list.
use authentication_service.Prelude.{ℕ, ◌≤◌, String, List, [], ◌∷◌, ◌++◌, Option, none, some, ◌≡◌}
use authentication_service.Revocation.Held.{Time, Event, RevocationList, new_list, prune}
use authentication_service.Revocation.Store.{Redis, record_event, dated, resync, all_events, hear}

-- `published` is what has been published so far, for the statement of what the list knows.
pub record World : Type 0 where
  pub now : Time
  pub redis : Redis
  pub inbox : List String
  pub list : RevocationList
  pub published : List Event

module _ (encode : Event → String) (unmarshal : String → Option Event) (life : ℕ) where
  -- Publish with its announcement, and with one that fails or that this service misses; the channel
  -- hands over a message; the first resync and each tick read all keys, or fail; the subscription
  -- closes; the second ticker prunes; time passes.
  pub data Step : World → World → Type 0 where
    publish :
        (w : World) (e : Event)
        → Step w (record w {
          redis = record_event encode life w.now e w.redis;
          inbox = w.inbox ++ encode (dated w.now e) ∷ [];
          published = dated w.now e ∷ w.published;
        })
    record_only :
        (w : World) (e : Event)
        → Step w (record w {
          redis = record_event encode life w.now e w.redis;
          published = dated w.now e ∷ w.published;
        })
    receive :
        (w : World) (raw : String) (rest : List String)
        → w.inbox ≡ raw ∷ rest
        → Step w (record w { inbox = rest; list = hear unmarshal w.now raw w.list })
    read_all :
        (w : World)
        → Step w (record w {
          list = resync unmarshal (some (all_events unmarshal w.now w.redis)) w.list;
        })
    fail_read : (w : World) → Step w (record w { list = resync unmarshal none w.list })
    close : (w : World) → Step w (record w { inbox = []; list = resync unmarshal none w.list })
    drop_old : (w : World) → Step w (record w { list = prune w.now life w.list })
    wait : (w : World) (later : Time) → w.now ≤ later → Step w (record w { now = later })

  pub data Reach (s : World) : World → Type 0 where
    here : Reach s s
    next : {w v : World} → Reach s w → Step w v → Reach s v

-- A service that starts beside an empty store.
unfoldable pub start : Time → World
unfolding new_list
start now = record { now = now; redis = []; inbox = []; list = new_list; published = [] }

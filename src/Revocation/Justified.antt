-- ===== src/Revocation/Justified.antt =====
-- What the watched list refuses has been published.
use authentication_service.Prelude.{
  ℕ, ◌≤◌, String, true, List, [], ◌∷◌, Option, some, nat_eq_iff, any-Elem, any, All, All-append,
  Elem, ◌≡◌, ◌≢◌, inl, inr, refl, arith, Option-cases,
}
use authentication_service.Prelude.Dict.{insert}
use authentication_service.Revocation.Held.{Time, Event, RevocationList, revoked}
use authentication_service.Revocation.Meaning.{
  hits, revoked-apply, revoked-replace, revoked-new_list,
}
use authentication_service.Revocation.Listed.{revoked-prune_le, revoked-mark_degraded, All-remove}
use authentication_service.Revocation.Store.{
  Redis, key, record_event, dated, decode, all_events, resync, hear,
}
use authentication_service.Revocation.Watch.{
  World, Step, Reach, publish, record_only, receive, read_all, fail_read, close, drop_old, wait,
  here, next, start,
}

-- The payload of each announcement reads as the announcement.
abbrev pub Reads : (Event → String) → (String → Option Event) → List Event → Type 0
Reads encode unmarshal published = (e : Event) → Elem e published → unmarshal (encode e) ≡ some e

module _ (encode : Event → String) (unmarshal : String → Option Event) (life : ℕ) where
  -- A payload is that of an announcement with a time.
  abbrev Known : List Event → String → Type 0
  Known published raw = (e : Event) × Elem e published × (raw ≡ encode e) × (e.at ≢ 0)

  abbrev Justifies : List Event → RevocationList → Type 0
  Justifies published l =
      (s u c : String) (t : Time)
      → revoked l s u c t ≡ true
      → any (λ e. hits e s u c t) published ≡ true

  record Inv (w : World) : Type 0 where
    dates : 1 ≤ w.now
    keys : All (λ e. Known w.published e.1.0) w.redis
    messages : All (Known w.published) w.inbox
    justified : Justifies w.published w.list

  Known-later :
      (e : Event) (published : List Event) (raws : List String)
      → All (Known published) raws
      → All (Known (e ∷ published)) raws
  Known-later e published [] h = tt
  Known-later e published (raw ∷ raws) ((d, there, same, timed), h) =
      ((d, inr there, same, timed), Known-later e published raws h)

  Known-later_keys :
      (e : Event) (published : List Event) (redis : Redis)
      → All (λ k. Known published k.1.0) redis
      → All (λ k. Known (e ∷ published) k.1.0) redis
  Known-later_keys e published [] h = tt
  Known-later_keys e published (k ∷ redis) ((d, there, same, timed), h) =
      ((d, inr there, same, timed), Known-later_keys e published redis h)

  Justifies-later :
      (e : Event) (published : List Event) (l : RevocationList)
      → Justifies published l
      → Justifies (e ∷ published) l
  Justifies-later e published l h s u c t refused = ground (arith, h s u c t refused)

  dated_timed : (now : Time) (e : Event) → 1 ≤ now → (dated now e).at ≢ 0
  unfolding dated
  dated_timed now e h = ground (arith, nat_eq_iff e.at 0)

  decode-Known :
      (now : Time) (published : List Event) (raw : String) (e : Event)
      → Reads encode unmarshal published
      → Known published raw
      → decode unmarshal now raw ≡ some e
      → Elem e published
  unfolding decode dated
  decode-Known now published raw e reads (d, there, same, timed) h =
      let parsed : unmarshal raw ≡ some d = rw same (reads d there) in
      let is : d ≡ e = ground (arith, parsed, nat_eq_iff d.at 0) in rw (← is) there

  all_events-Known :
      (now : Time) (published : List Event) (redis : Redis) (s u c : String) (t : Time)
      → Reads encode unmarshal published
      → All (λ k. Known published k.1.0) redis
      → any (λ e. hits e s u c t) (all_events unmarshal now redis) ≡ true
      → any (λ e. hits e s u c t) published ≡ true
  unfolding all_events
  all_events-Known now published [] s u c t reads known h = absurd (cc)
  all_events-Known now published ((k, (raw, expires)) ∷ redis) s u c t reads known h =
      let later = all_events-Known now published redis s u c t reads known.1 in
      elim (Option-cases (decode unmarshal now raw)) [
        | inl unread ↦ ground (arith, later)
        | inr (e, read) ↦
            let there = decode-Known now published raw e reads known.0 read in
            ground (arith, later, any-Elem (λ (d : Event). hits d s u c t) e published there)
      ]

  hear-Justifies :
      (now : Time) (published : List Event) (raw : String) (l : RevocationList)
      → Reads encode unmarshal published
      → Known published raw
      → Justifies published l
      → Justifies published (hear unmarshal now raw l)
  unfolding hear
  hear-Justifies now published raw l reads known h s u c t refused =
      elim (Option-cases (decode unmarshal now raw)) [
        | inl unread ↦ h s u c t (ground arith)
        | inr (e, read) ↦
            let there = decode-Known now published raw e reads known read in
            ground (
              arith,
              h s u c t,
              revoked-apply e l s u c t,
              any-Elem (λ (d : Event). hits d s u c t) e published there,
            )
      ]

  Step-Inv :
      {w v : World}
      → Step encode unmarshal life w v
      → Reads encode unmarshal v.published
      → Inv w
      → Inv v
  unfolding resync record_event insert
  Step-Inv (publish w e) reads i =
      let d = dated w.now e in
      let fresh : Known (d ∷ w.published) (encode d) =
        (d, inl refl, refl, dated_timed w.now e i.dates) in
      record {
        dates = i.dates;
        keys = (
          fresh,
          All-remove (λ v. Known (d ∷ w.published) v.0) (key d) w.redis
              (Known-later_keys d w.published w.redis i.keys),
        );
        messages =
            (All-append (Known (d ∷ w.published)) w.inbox (encode d ∷ [])).1
              (Known-later d w.published w.inbox i.messages, (fresh, tt));
        justified = Justifies-later d w.published w.list i.justified;
      }
  Step-Inv (record_only w e) reads i =
      let d = dated w.now e in
      let fresh : Known (d ∷ w.published) (encode d) =
        (d, inl refl, refl, dated_timed w.now e i.dates) in
      record {
        dates = i.dates;
        keys = (
          fresh,
          All-remove (λ v. Known (d ∷ w.published) v.0) (key d) w.redis
              (Known-later_keys d w.published w.redis i.keys),
        );
        messages = Known-later d w.published w.inbox i.messages;
        justified = Justifies-later d w.published w.list i.justified;
      }
  Step-Inv (receive w raw rest waits) reads i = record {
    dates = i.dates;
    keys = i.keys;
    messages = (rw waits at i.messages).1;
    justified =
        hear-Justifies w.now w.published raw w.list reads (rw waits at i.messages).0 i.justified;
  }
  Step-Inv (read_all w) reads i = record {
    dates = i.dates;
    keys = i.keys;
    messages = i.messages;
    justified = λ s u c t refused. all_events-Known w.now w.published w.redis s u c t reads i.keys (
        ground
          (arith, refused, revoked-replace (all_events unmarshal w.now w.redis) w.list s u c t));
  }
  Step-Inv (fail_read w) reads i = record {
    dates = i.dates;
    keys = i.keys;
    messages = i.messages;
    justified = λ s u c t refused.
        i.justified s u c t (ground (arith, refused, revoked-mark_degraded w.list s u c t));
  }
  Step-Inv (close w) reads i = record {
    dates = i.dates;
    keys = i.keys;
    messages = tt;
    justified = λ s u c t refused.
        i.justified s u c t (ground (arith, refused, revoked-mark_degraded w.list s u c t));
  }
  Step-Inv (drop_old w) reads i = record {
    dates = i.dates;
    keys = i.keys;
    messages = i.messages;
    justified =
        λ s u c t refused. i.justified s u c t (revoked-prune_le w.now life w.list s u c t refused);
  }
  Step-Inv (wait w later h) reads i = record {
    dates = omega (arith, i.dates, h);
    keys = i.keys;
    messages = i.messages;
    justified = i.justified;
  }

  -- What has been published stays so.
  Step-published :
      {w v : World} (e : Event)
      → Step encode unmarshal life w v
      → Elem e w.published
      → Elem e v.published
  Step-published e (publish w d) h = inr h
  Step-published e (record_only w d) h = inr h
  Step-published e (receive w raw rest waits) h = h
  Step-published e (read_all w) h = h
  Step-published e (fail_read w) h = h
  Step-published e (close w) h = h
  Step-published e (drop_old w) h = h
  Step-published e (wait w later _) h = h

  Reach-Inv :
      {w v : World}
      → Inv w
      → Reach encode unmarshal life w v
      → Reads encode unmarshal v.published
      → Inv v
  Reach-Inv i here reads = i
  Reach-Inv i (next r st) reads =
      Step-Inv st reads (Reach-Inv i r (λ e h. reads e (Step-published e st h)))

-- Whatever is published, lost, heard, read and pruned, in whatever order: where the payload of each
-- published event reads as that event, a service that starts beside an empty store refuses a token only if an
-- announcement that was published hits it.
pub Reach-justified :
    (encode : Event → String) (unmarshal : String → Option Event) (life now : ℕ) (w : World)
    (s u c : String) (t : Time)
    → Reads encode unmarshal w.published
    → 1 ≤ now
    → Reach encode unmarshal life (start now) w
    → revoked w.list s u c t ≡ true
    → any (λ e. hits e s u c t) w.published ≡ true
unfolding start
Reach-justified encode unmarshal life now w s u c t reads begun reach refused =
    let first : Inv encode unmarshal life (start now) = record {
      dates = begun;
      keys = tt;
      messages = tt;
      justified = λ s u c t h. cc (h, revoked-new_list s u c t);
    } in
    (Reach-Inv encode unmarshal life first reach reads).justified s u c t refused

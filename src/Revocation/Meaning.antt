-- ===== src/Revocation/Meaning.antt =====
-- What a list means: the announcements that it has recorded, and nothing else.
use mathlib.Core.List.{Perm, Permᴰ}
use mathlib.Core.Logic.{∥∥₁_elim}
use mathlib.Core.Bool.{Bool-set}
use authentication_service.Prelude.{
  String, Bool, false, not, ◌&&◌, ◌||◌, List, [], ◌∷◌, ◌==◌, ltb, eq_iff, any, sym, ◌≡◌, refl, ◌∙◌,
  ap, arith,
}
use authentication_service.Prelude.Dict.{Dict, lookup, insert, lookup-remove, lookup-insert}
use authentication_service.Revocation.Held.{
  Time, Kind, session, user, company, other, Event, RevocationList, new_list, ended, cut_off,
  revoked, raise_cutoff, apply_kind, apply, apply_all, replace,
}

-- An announcement refuses a token: the token's session is the one that ended, or the token was
-- issued to the user or the company before the cutoff. No token has the empty id.
abbrev pub hits_kind : Kind → String → Time → String → String → String → Time → Bool
hits_kind session id at s u c issued_at = not (s == "") && id == s
hits_kind user id at s u c issued_at = not (u == "") && (id == u && ltb issued_at at)
hits_kind company id at s u c issued_at = not (c == "") && (id == c && ltb issued_at at)
hits_kind (other _) id at s u c issued_at = false

abbrev pub hits : Event → String → String → String → Time → Bool
hits e = hits_kind e.kind e.id e.at

module _ (id : String) (at : Time) (m : Dict Time) where
  ended-insert : (j : String) → ended (insert id at m) j ≡ (ended m j || (not (j == "") && id == j))
  unfolding ended
  ended-insert j = ground (arith, lookup-insert id j at m, eq_iff id j)

  cut_off-raise_cutoff :
      (j : String) (t : Time)
      → cut_off (raise_cutoff id at m) j t
        ≡ (cut_off m j t || (not (j == "") && (id == j && ltb t at)))
  unfolding cut_off raise_cutoff
  cut_off-raise_cutoff j t =
      ground (arith, lookup-remove id j m, eq_iff id j, ap (λ k. lookup k m) {x = id} {y = j})

revoked-apply_kind :
    (k : Kind) (id : String) (at : Time) (l : RevocationList) (s u c : String) (t : Time)
    → revoked (apply_kind k id at l) s u c t ≡ (revoked l s u c t || hits_kind k id at s u c t)
unfolding revoked apply_kind
revoked-apply_kind session id at l s u c t = ground (arith, ended-insert id at l.sessions s)
revoked-apply_kind user id at l s u c t = ground (arith, cut_off-raise_cutoff id at l.users u t)
revoked-apply_kind company id at l s u c t =
    ground (arith, cut_off-raise_cutoff id at l.companies c t)
revoked-apply_kind (other _) id at l s u c t = ground arith

-- One announcement adds exactly the tokens that it refuses.
pub revoked-apply :
    (e : Event) (l : RevocationList) (s u c : String) (t : Time)
    → revoked (apply e l) s u c t ≡ (revoked l s u c t || hits e s u c t)
unfolding apply
revoked-apply e l s u c t = revoked-apply_kind e.kind e.id e.at l s u c t

pub revoked-apply_all :
    (es : List Event) (l : RevocationList) (s u c : String) (t : Time)
    → revoked (apply_all es l) s u c t ≡ (revoked l s u c t || any (λ e. hits e s u c t) es)
unfolding apply_all
revoked-apply_all [] l s u c t = ground arith
revoked-apply_all (e ∷ es) l s u c t =
    ground (arith, revoked-apply_all es (apply e l) s u c t, revoked-apply e l s u c t)

pub revoked-new_list : (s u c : String) (t : Time) → revoked new_list s u c t ≡ false
unfolding revoked new_list ended cut_off lookup
revoked-new_list s u c t = ground arith

revoked-replace_fresh :
    (es : List Event) (l : RevocationList) (s u c : String) (t : Time)
    → revoked (replace es l) s u c t ≡ revoked (apply_all es new_list) s u c t
unfolding revoked replace
revoked-replace_fresh es l s u c t = refl

-- After a resync the list refuses a token exactly when one of the announcements in the store does,
-- whatever it held before.
pub revoked-replace :
    (es : List Event) (l : RevocationList) (s u c : String) (t : Time)
    → revoked (replace es l) s u c t ≡ any (λ e. hits e s u c t) es
revoked-replace es l s u c t = ground (
  arith,
  revoked-replace_fresh es l s u c t,
  revoked-apply_all es new_list s u c t,
  revoked-new_list s u c t,
)

any-Permᴰ : (p : Event → Bool) {es fs : List Event} → Permᴰ es fs → any p es ≡ any p fs
any-Permᴰ p Permᴰ.nil = refl
any-Permᴰ p (Permᴰ.cons {a} {b} {l₁} {l₂} same rest) = cc (any-Permᴰ p rest, ap p same)
any-Permᴰ p (Permᴰ.swap {a} {b} {a'} {b'} {l} x y) = ground (arith, ap p x, ap p y)
any-Permᴰ p (Permᴰ.trans first second) = any-Permᴰ p first ∙ any-Permᴰ p second

-- The order in which announcements arrive does not matter: two services that apply the same ones,
-- each in its own order, refuse the same tokens.
pub revoked-apply_all_perm :
    (es fs : List Event) (l : RevocationList) (s u c : String) (t : Time)
    → Perm es fs
    → revoked (apply_all es l) s u c t ≡ revoked (apply_all fs l) s u c t
revoked-apply_all_perm es fs l s u c t h = ∥∥₁_elim h (Bool-set _ _) λ d.
    revoked-apply_all es l s u c t
    ∙ ap (λ b. revoked l s u c t || b) (any-Permᴰ (λ e. hits e s u c t) d)
    ∙ sym (revoked-apply_all fs l s u c t)

-- ===== src/Auth/Rows.antt =====
-- What an update of the session rows leaves as it was.
use authentication_service.Prelude.{
  Bool, true, false, List, [], ◌∷◌, ◌++◌, some, ◌≡◌, refl, sym, arith, Bool-cases, inl, inr, Elem,
}
use authentication_service.Revocation.Held.{Time}
use authentication_service.Auth.Store.{Session, is_nil}
use authentication_service.Auth.Sessions.{first, revoke_row, revoke_where}

module _ (now : Time) (p : Session → Bool) where
  pub revoke_row-hash : (x : Session) → (revoke_row now p x).refresh_hash ≡ x.refresh_hash
  unfolding revoke_row
  revoke_row-hash x = ground arith

  pub revoke_row-token_id : (x : Session) → (revoke_row now p x).token_id ≡ x.token_id
  unfolding revoke_row
  revoke_row-token_id x = ground arith

  pub revoke_row-user_id : (x : Session) → (revoke_row now p x).user_id ≡ x.user_id
  unfolding revoke_row
  revoke_row-user_id x = ground arith

  pub revoke_row-single_device :
      (x : Session) → (revoke_row now p x).single_device ≡ x.single_device
  unfolding revoke_row
  revoke_row-single_device x = ground arith

  -- A row that the condition takes is revoked afterwards, whatever it was.
  pub revoke_row-taken : (x : Session) → p x ≡ true → is_nil (revoke_row now p x).revoked_at ≡ false
  unfolding revoke_row
  revoke_row-taken x taken = elim (Bool-cases (is_nil x.revoked_at)) [
    | inl live ↦ rw (taken, live) refl
    | inr gone ↦ rw (taken, gone) gone
  ]

  -- A look-up by a column that the update leaves alone finds the same row, updated.
  pub first-revoke_where :
      (q : Session → Bool) (keeps : (x : Session) → q (revoke_row now p x) ≡ q x)
      (xs : List Session) (x : Session) (more : List Session)
      → first q xs ≡ some x
      → first q (revoke_where now p xs ++ more) ≡ some (revoke_row now p x)
  unfolding first revoke_where
  first-revoke_where q keeps [] x more h = absurd (cc)
  first-revoke_where q keeps (y ∷ ys) x more h =
      ground (arith, keeps y, first-revoke_where q keeps ys x more)

-- The rows after an update are the rows before it, each updated.
pub Elem-revoke_where :
    (now : Time) (p : Session → Bool) (x : Session) (xs : List Session)
    → Elem x (revoke_where now p xs)
    → (y : Session) × Elem y xs × (x ≡ revoke_row now p y)
unfolding revoke_where
Elem-revoke_where now p x [] h = absurd h
Elem-revoke_where now p x (y ∷ ys) (inl here) = (y, inl refl, sym here)
Elem-revoke_where now p x (y ∷ ys) (inr later) =
    let (z, there, is_z) = Elem-revoke_where now p x ys later in (z, inr there, is_z)

-- A row that is live after an update was live before it, and the condition does not take it.
pub revoke_row-live :
    (now : Time) (p : Session → Bool) (y : Session)
    → is_nil (revoke_row now p y).revoked_at ≡ true
    → (p y ≡ false) × (revoke_row now p y ≡ y)
unfolding revoke_row
revoke_row-live now p y live = elim (Bool-cases (p y)) [
  | inl taken ↦ absurd (cc (live, revoke_row-taken now p y taken))
  | inr spared ↦ (spared, rw spared refl)
]

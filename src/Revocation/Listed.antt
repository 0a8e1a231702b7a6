-- ===== src/Revocation/Listed.antt =====
-- What the methods that forget leave of the list, and of a map of keys.
use authentication_service.Prelude.{
  ℕ, ◌-◌, String, true, [], ◌∷◌, ◌==◌, ltb, All, ◌≡◌, inl, inr, refl, arith, Bool-cases,
}
use authentication_service.Prelude.Dict.{Dict, remove, lookup-delete_if}
use authentication_service.Revocation.Held.{
  Time, RevocationList, ended, cut_off, revoked, prune, mark_degraded,
}

pub revoked-prune_le :
    (now life : ℕ) (l : RevocationList) (s u c : String) (t : Time)
    → revoked (prune now life l) s u c t ≡ true
    → revoked l s u c t ≡ true
unfolding revoked prune ended cut_off
revoked-prune_le now life l s u c t h = ground (
  arith,
  lookup-delete_if (λ at. ltb at (now - life)) s l.sessions,
  lookup-delete_if (λ at. ltb at (now - life)) u l.users,
  lookup-delete_if (λ at. ltb at (now - life)) c l.companies,
)

pub revoked-mark_degraded :
    (l : RevocationList) (s u c : String) (t : Time)
    → revoked (mark_degraded l).0 s u c t ≡ revoked l s u c t
unfolding revoked mark_degraded
revoked-mark_degraded l s u c t = refl

pub All-remove {ℓ} :
    {V : Type ℓ} (P : V → Type 0) (k : String) (m : Dict V)
    → All (λ e. P e.1) m
    → All (λ e. P e.1) (remove k m)
unfolding remove
All-remove P k [] h = tt
All-remove P k ((j, v) ∷ m) h = elim (Bool-cases (j == k)) [
  | inl same ↦ rw (same, All) (All-remove P k m h.1)
  | inr other ↦ rw (other, All) (h.0, All-remove P k m h.1)
]

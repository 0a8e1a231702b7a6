-- ===== src/Revocation/Pruning.antt =====
-- Prune forgets only what no live token can meet.
use authentication_service.Prelude.{
  ℕ, ◌+◌, ◌-◌, ◌≤◌, String, some, ltb, ◌≡◌, arith, Option-cases, inl, inr,
}
use authentication_service.Prelude.Dict.{Dict, lookup, delete_if, lookup-delete_if}
use authentication_service.Revocation.Held.{Time, RevocationList, ended, cut_off, revoked, prune}

module _ (m : Dict Time) (id : String) (t now life : ℕ) (live : now ≤ t + life) where
  cut_off-delete_if : cut_off (delete_if (λ at. ltb at (now - life)) m) id t ≡ cut_off m id t
  unfolding cut_off
  cut_off-delete_if = ground (arith, lookup-delete_if (λ at. ltb at (now - life)) id m)

  ended-delete_if :
      ((at : Time) → lookup id m ≡ some at → t ≤ at)
      → ended (delete_if (λ at. ltb at (now - life)) m) id ≡ ended m id
  unfolding ended
  ended-delete_if h = elim (Option-cases (lookup id m)) [
    | inl missing ↦ ground (arith, lookup-delete_if (λ at. ltb at (now - life)) id m)
    | inr (at, found) ↦
        ground (arith, lookup-delete_if (λ at. ltb at (now - life)) id m, h at found)
  ]

-- For a token that has not outlived `life`, and that was not issued after the moment at which its
-- session ended, if it did, pruning does not change the answer.
pub revoked-prune :
    (l : RevocationList) (s u c : String) (t now life : ℕ)
    → now ≤ t + life
    → ((at : Time) → lookup s l.sessions ≡ some at → t ≤ at)
    → revoked (prune now life l) s u c t ≡ revoked l s u c t
unfolding revoked prune
revoked-prune l s u c t now life live h = ground (
  arith,
  ended-delete_if l.sessions s t now life live h,
  cut_off-delete_if l.users u t now life live,
  cut_off-delete_if l.companies c t now life live,
)

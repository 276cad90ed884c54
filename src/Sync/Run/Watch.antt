-- ===== src/Sync/Run/Watch.antt =====
-- What the namespace watch concludes from a list of heads.
use bitboxsync_client_go.Prelude.{
  ℕ, ◌<◌, false, List, [], ◌∷◌, some, ◌≡◌, ◌↔◌, refl, arith, All, Bool-cases, inl, inr, ltb, ltb→lt,
  Option-cases,
}
use mathlib.Core.List.{Mem, mem-cons_self, mem-cons_of_mem}
use bitboxsync_client_go.Result.{Error, ok, err, rollback}
use bitboxsync_client_go.Types.{Dict, get}
use bitboxsync_client_go.Api.{NamespaceSummary}
use bitboxsync_client_go.Sync.Run.{compare_head, any_ahead}

-- the listed head is the known one
abbrev pub IsKnown : Dict ℕ → NamespaceSummary → Type 0
IsKnown known n = get n.namespace_id known ≡ some n.namespace_head

-- No sync is wanted exactly when every listed head is the known one.
pub any_ahead_iff :
    (known : Dict ℕ) (ns : List NamespaceSummary)
    → (any_ahead known ns ≡ ok false) ↔ All (IsKnown known) ns
unfolding any_ahead compare_head
any_ahead_iff known [] = (λ h. tt, λ h. refl)
any_ahead_iff known (n ∷ ns) = elim (Option-cases (get n.namespace_id known)) [
  | inl new ↦ (λ h. absurd (ground arith), λ (h, hs). absurd (cc))
  | inr (head, old) ↦ (
    λ h. (ground arith, (any_ahead_iff known ns).0 (ground arith)),
    λ (h, hs). ground (arith, (any_ahead_iff known ns).1 hs),
  )
]

-- A failure is ErrRollback, and some listed head is then behind the known one.
pub any_ahead-rollback :
    (known : Dict ℕ) (ns : List NamespaceSummary) (x : Error)
    → any_ahead known ns ≡ err x
    → (x ≡ rollback)
      × ((n : NamespaceSummary) × (old : ℕ) × Mem n ns
          × (get n.namespace_id known ≡ some old)
          × (n.namespace_head < old))
unfolding any_ahead compare_head
any_ahead-rollback known [] x h = absurd (cc)
any_ahead-rollback known (n ∷ ns) x h = elim (Option-cases (get n.namespace_id known)) [
  | inl new ↦ absurd (ground arith)
  | inr (old, found) ↦ elim (Bool-cases (ltb n.namespace_head old)) [
    | inl behind ↦
        (ground arith, (n, old, mem-cons_self, found, ltb→lt n.namespace_head old behind))
    | inr level ↦
        let (same, (m, known_head, listed, known_m, behind)) =
          any_ahead-rollback known ns x (ground arith) in
        (same, (m, known_head, mem-cons_of_mem n listed, known_m, behind))
  ]
]

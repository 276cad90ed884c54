-- ===== src/Sync/Invites/Limits.antt =====
-- bitboxsync/namespace_invites.go: limits and expiries.
use bitboxsync_client_go.Prelude.{
  ℕ, ◌+◌, ◌^◌, ◌<◌, ◌≤◌, ◌↔◌, min, ◌||◌, false, ltb, ◌≡◌, refl, ap, Bool-cases, inl, inr, ◌-◌,
  arith,
}
use bitboxsync_client_go.Prelude.Int.{ℤ, pos, negsuc, ltz, lez, to_uint32}
use bitboxsync_client_go.Result.{ok}
use bitboxsync_client_go.Sync.Invites.{unix}
use bitboxsync_client_go.Sync.Invites.Create.{checked_uint32}
use bitboxsync_client_go.Sync.Invites.Join.{
  NamespaceJoinRequestOptions, max_join_request_ttl, effective_ttl, chosen_expiry, check_expiry,
  join_expiry,
}

fits : (k : ℕ) → (lez (pos k) (pos 0) || ltz (pos (2 ^ 31 - 1)) (pos k)) ≡ false → k < 2 ^ 31
fits k h = ground arith

positive : (k : ℕ) → (lez (pos k) (pos 0) || ltz (pos (2 ^ 31 - 1)) (pos k)) ≡ false → 0 < k
positive k h = ground arith

accepted : (k : ℕ) → 0 < k → k < 2 ^ 31 → checked_uint32 (pos k) ≡ ok k
unfolding checked_uint32
accepted k p l =
    let inside : (lez (pos k) (pos 0) || ltz (pos (2 ^ 31 - 1)) (pos k)) ≡ false = ground arith in
    let same : to_uint32 (pos k) ≡ k = omega arith in rw (inside, same) refl

-- checkedUint32 accepts the numbers from 1 to 2 ^ 31 - 1, unchanged, and no others.
pub checked_uint32_iff :
    (v : ℤ) (n : ℕ) → (checked_uint32 v ≡ ok n) ↔ ((v ≡ pos n) × (0 < n) × (n < 2 ^ 31))
unfolding checked_uint32
checked_uint32_iff (pos m) n = (
  λ h. elim (Bool-cases (lez (pos m) (pos 0) || ltz (pos (2 ^ 31 - 1)) (pos m))) [
    | inl out ↦ absurd (ground arith)
    | inr in' ↦
        let e : to_uint32 (pos m) ≡ n = ground arith in
        let same : m ≡ n = omega (arith, e, fits m in') in
        (ap pos same, omega (arith, same, positive m in'), omega (arith, same, fits m in'))
  ],
  λ (e, p, l). let same : m ≡ n = cc e in rw (same) (accepted n p l),
)
checked_uint32_iff (negsuc m) n = (λ h. cc h, λ (e, p, l). absurd (cc e))

-- what the four checks leave of an expiry
checked_bounds :
    (t : ℕ) (invite_expiry : ℕ) (v : ℤ) {x : ℤ}
    → check_expiry t (pos invite_expiry) v ≡ ok x
    → (n : ℕ) × (x ≡ pos n) × (unix t < n) × (n ≤ unix t + 600) × (n ≤ invite_expiry)
unfolding check_expiry
checked_bounds t invite_expiry (pos n) {x} h =
    (n, ground arith, ground arith, ground arith, ground arith)
checked_bounds t invite_expiry (negsuc n) h = absurd (cc h)

-- The expiry of a join request, whatever the options: it lies after the time of the clock, in whole
-- seconds, at most ten minutes ahead, and not after the expiry of the invite.
pub join_expiry_bounds :
    (t : ℕ) (opts : NamespaceJoinRequestOptions) (invite_expiry : ℕ) {x : ℤ}
    → join_expiry t opts (pos invite_expiry) ≡ ok x
    → (n : ℕ) × (x ≡ pos n) × (unix t < n) × (n ≤ unix t + 600) × (n ≤ invite_expiry)
unfolding join_expiry
join_expiry_bounds t opts invite_expiry {x} h =
    checked_bounds t invite_expiry (chosen_expiry t opts (pos invite_expiry)) h

-- With options that leave the expiry open, a request for an invite that has not expired always gets
-- an expiry: ten minutes ahead, or that of the invite if it is earlier.
pub join_expiry_default :
    (t : ℕ) (opts : NamespaceJoinRequestOptions) (invite_expiry : ℕ)
    → opts.expires_at ≡ pos 0
    → opts.ttl ≡ pos 0
    → unix t < invite_expiry
    → join_expiry t opts (pos invite_expiry) ≡ ok (pos (min (unix t + 600) invite_expiry))
unfolding join_expiry check_expiry effective_ttl
join_expiry_default t opts invite_expiry open' default live =
    let ahead : unix (t + max_join_request_ttl) ≡ unix t + 600 = omega arith in
    rw (open', default, ahead)
      (elim (Bool-cases (ltb invite_expiry (unix t + 600))) [
        | inl earlier ↦
            let m : min (unix t + 600) invite_expiry ≡ invite_expiry = ground arith in
            rw (earlier, m) (ground arith)
        | inr later ↦
            let m : min (unix t + 600) invite_expiry ≡ unix t + 600 = ground arith in
            rw (later, m) (ground arith)
      ])

-- ===== src/Sync/Pull/Rollback.antt =====
-- The checks on the server's list of namespaces.
use bitboxsync_client_go.Prelude.{
  Bool, true, false, not, ◌&&◌, ◌||◌, List, [], ◌∷◌, ◌≡◌, refl, arith, All, length, ◌==◌, map,
}
use bitboxsync_client_go.Prelude.Bytes.{Bytes, bytes_eq}
use bitboxsync_client_go.Result.{Error, Result, ok, err, refuse_if, ◌>>=◌}
use bitboxsync_client_go.Types.{NamespaceState, contains}
use bitboxsync_client_go.Api.{NamespaceSummary}
use bitboxsync_client_go.Sync.Pull.{check_summaries, check_present, check_namespaces}

-- the two parts of a chain that succeeded
both :
    {A : Type 0} (a : Result A) {f : A → Result (Unit {0})}
    → a >>= f ≡ ok tt
    → (x : A) × (a ≡ ok x) × (f x ≡ ok tt)
both (ok x) h = (x, refl, h)
both (err e) h = absurd (cc)

refused :
    (b : Bool) (x : Error) (k : Unit {0} → Result (Unit {0}))
    → refuse_if b x >>= k ≡ ok tt
    → (b ≡ false) × (k tt ≡ ok tt)
unfolding refuse_if
refused true x k h = absurd (cc)
refused false x k h = (refl, h)

neither : (a b : Bool) → (not a && not b) ≡ false → (a || b) ≡ true
neither a b h = ground arith

check_present-All :
    (ids : List Bytes) (local : List NamespaceState)
    → check_present ids local ≡ ok tt
    → All (λ n. contains n.namespace_id ids ≡ true) local
unfolding check_present
check_present-All ids [] h = tt
check_present-All ids (n ∷ ns) h =
    let (here, rest) = refused (not (contains n.namespace_id ids)) _ _ h in
    (ground (arith, here), check_present-All ids ns rest)

-- When the checks on the listed namespaces pass, no local namespace and no known default namespace
-- is missing from the list.
pub check_namespaces-present :
    (default_id : Bytes) (remote : List NamespaceSummary) (local : List NamespaceState)
    → check_namespaces default_id remote local ≡ ok tt
    → All (λ n. contains n.namespace_id (map (λ r. r.namespace_id) remote) ≡ true) local
      × ((length default_id == 0 || contains default_id (map (λ r. r.namespace_id) remote)) ≡ true)
unfolding check_namespaces
check_namespaces-present default_id remote local h =
    let (remote_default, _, h₁) = both (check_summaries default_id remote []) h in
    let ids = map (λ r. r.namespace_id) remote in
    let (_, h₂) =
      refused
        (not (length default_id == 0)
          && (not (length remote_default == 0) && not (bytes_eq default_id remote_default)))
        _ _ h₁ in
    let (known, h₃) =
      refused (not (length default_id == 0) && not (contains default_id ids)) _ _ h₂ in
    (
      check_present-All ids local h₃,
      neither (length default_id == 0) (contains default_id ids) known,
    )

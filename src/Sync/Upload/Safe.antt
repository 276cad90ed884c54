-- ===== src/Sync/Upload/Safe.antt =====
-- The push phase keeps the stored items valid and never takes a version back.
use bitboxsync_client_go.Prelude.{ℕ, ◌≤◌, ◌<◌, ◌^◌, ◌≡◌, Option, none, arith, ==_iff}
use bitboxsync_client_go.Prelude.Bytes.{Bytes}
use bitboxsync_client_go.Result.{
  Error, Result, ok, err, is_not_found, is_permanent_upload, is_precondition_error,
}
use bitboxsync_client_go.Types.{ItemState, NamespaceState}
use bitboxsync_client_go.Api.{PutItemRequest, PutItemResponse}
use bitboxsync_client_go.Client.{put_item, expected_version}
use bitboxsync_client_go.Engine.State.{Engine, Tables, attempt}
use bitboxsync_client_go.Engine.Ensures.{
  Ensures, IsQuiet, Ensures-bind, Ensures-pure, Ensures-raise, Ensures-if, Ensures-weaken,
  bind-quiet, bind-refuse, quiet_rules, call-IsQuiet, pure-IsQuiet, now-IsQuiet, emit_item-IsQuiet,
  lift-IsQuiet, attempt-IsQuiet,
}
use bitboxsync_client_go.Sync.Safe.{Start, Safe, Current, DatabaseLaws}
use bitboxsync_client_go.Sync.Safe.Keeps.{Outcome, Ensures-attempt, quiet-Keeps, bind-Keeps}
use bitboxsync_client_go.Sync.Safe.Store.{save_item-Safe, get_item_by_id-Found, Found}
use bitboxsync_client_go.Sync.Marks.Valid.{mark_item_clean-Current}
use bitboxsync_client_go.Sync.Values.Quiet.{item_current_value-IsQuiet}
use bitboxsync_client_go.Sync.Auth.Safe.{save_namespace-Keeps}
use bitboxsync_client_go.Sync.Items.Safe.{fetch_and_apply_for_conflict-Safe}
use bitboxsync_client_go.Sync.Scope.{NamespaceActiveScope}
use bitboxsync_client_go.Sync.Upload.{
  if_match, skips, value_or_permanent, upload, save_upload, finish_retry, retry_upload,
  finish_upload, flush_stored,
}

-- the version that a server may answer with is ahead of the item's
expected_version-le :
    (item : ItemState) (v : ℕ)
    → item.version < 2 ^ 63
    → v ≡ expected_version (if_match item)
    → item.version ≤ v
unfolding if_match expected_version
expected_version-le item v fits h = ground arith

module _ {X : Type 0} (e : Engine X) (P : Tables → Type 0) where
  put_item-version :
      (token n i : Bytes) (req : PutItemRequest) (m : Option ℕ)
      → Ensures P
          (put_item e token n i req m)
          (λ resp t. P t × (resp.version ≡ expected_version m))
          P
  unfolding put_item
  put_item-version token n i req m =
      bind-quiet (lift-IsQuiet _) (λ t p. p)
        λ _.
          bind-quiet (lift-IsQuiet _) (λ t p. p)
            λ _.
              bind-quiet (call-IsQuiet _) (λ t p. p)
                λ resp.
                  bind-refuse _ _ (λ t p. p)
                    λ _.
                      bind-refuse _ _ (λ t p. p)
                        λ _.
                          bind-refuse _ _ (λ t p. p)
                            λ same.
                              Ensures-pure resp (λ t p.
                                (p, ground (arith, ==_iff resp.version (expected_version m))))

  value_or_permanent-IsQuiet : (r : Result Bytes) → IsQuiet (value_or_permanent e r)
  unfolding value_or_permanent
  value_or_permanent-IsQuiet (ok value) = search quiet_rules
  value_or_permanent-IsQuiet (err x) = search quiet_rules

  -- an accepted upload has the version that was asked for
  upload-version :
      (token : Bytes) (ns : NamespaceState) (item : ItemState)
      → Ensures P
          (upload e token ns item)
          (λ r t. P t × (r.0.version ≡ expected_version (if_match item)))
          P
  unfolding upload
  upload-version token ns item =
      bind-quiet (attempt-IsQuiet (item_current_value-IsQuiet item)) (λ t p. p)
        λ found.
          bind-quiet (value_or_permanent-IsQuiet found) (λ t p. p)
            λ value.
              bind-quiet (lift-IsQuiet _) (λ t p. p)
                λ _.
                  bind-quiet (lift-IsQuiet _) (λ t p. p)
                    λ prepared.
                      bind-quiet (call-IsQuiet _) (λ t p. p)
                        λ nonce.
                          Ensures-bind
                            (put_item-version token item.namespace_id item.item_id _
                              (if_match item))
                            λ resp. Ensures-pure _ (λ t p. p)

module _ {X : Type 0} (e : Engine X) (t₀ : Start) (laws : DatabaseLaws t₀ e.database) where
  -- what a try leaves
  abbrev Tried : ItemState → Result (PutItemResponse × Bytes) → Tables → Type 0
  Tried item =
      Outcome (λ r t. Current t₀ item t × (r.0.version ≡ expected_version (if_match item)))
        (Current t₀ item)

  try-Tried :
      (token : Bytes) (ns : NamespaceState) (item : ItemState)
      → Ensures (Current t₀ item) (attempt (upload e token ns item)) (Tried item) (Safe t₀)
  try-Tried token ns item = Ensures-attempt _ (upload-version e (Current t₀ item) token ns item)

  save_upload-Safe :
      (ns : NamespaceState) (item : ItemState) (r : PutItemResponse × Bytes)
      → item.version < 2 ^ 63
      → Ensures (Tried item (ok r)) (save_upload e ns item r) (λ _. Safe t₀) (Safe t₀)
  unfolding save_upload
  save_upload-Safe ns item (resp, value) fits =
      bind-quiet (now-IsQuiet e) (λ t p. p.0.safe)
        λ now_at.
          Ensures-bind
            (Ensures-weaken
              (λ t (c, v).
                mark_item_clean-Current now_at c resp.version value
                  (expected_version-le item resp.version fits v))
              (save_item-Safe e t₀ laws _))
            λ _. bind-Keeps t₀ (quiet-Keeps t₀ (now-IsQuiet e)) λ t'.
              bind-Keeps t₀ (save_namespace-Keeps e t₀ _) λ _.
                bind-Keeps t₀ (quiet-Keeps t₀ (emit_item-IsQuiet e _ _))
                  λ _. quiet-Keeps t₀ (pure-IsQuiet _)

  finish_retry-Safe :
      (first : Error) (ns : NamespaceState) (item : ItemState)
      (r : Result (PutItemResponse × Bytes))
      → item.version < 2 ^ 63
      → Ensures (Tried item r) (finish_retry e first ns item r) (λ _. Safe t₀) (Safe t₀)
  unfolding finish_retry
  finish_retry-Safe first ns item (ok done) fits = save_upload-Safe ns item done fits
  finish_retry-Safe first ns item (err x) fits =
      Ensures-if (is_permanent_upload x) _ _ (λ _. Ensures-pure none (λ t c. c.safe))
        λ _.
          Ensures-if (is_precondition_error x) _ _
            (λ _.
              Ensures-bind (fetch_and_apply_for_conflict-Safe e t₀ laws ns item)
                λ _. quiet-Keeps t₀ (pure-IsQuiet none))
            (λ _. Ensures-raise first (λ t c. c.safe))

  retry_upload-Safe :
      (first : Error) (token : Bytes) (ns : NamespaceState) (scope : NamespaceActiveScope)
      (k n i : Bytes) (r : Result ItemState)
      → Ensures (Found t₀ k n i r) (retry_upload e first token ns scope r) (λ _. Safe t₀) (Safe t₀)
  unfolding retry_upload
  retry_upload-Safe first token ns scope k n i (ok item) =
      Ensures-if (skips scope item) _ _ (λ _. Ensures-pure none (λ t f. f.0.safe))
        λ _. record {
          at = λ s (c, _, _, _, fits).
              (Ensures-bind (try-Tried token ns item)
                  λ outcome. finish_retry-Safe first ns item outcome fits).at
                s c;
        }
  retry_upload-Safe first token ns scope k n i (err x) =
      Ensures-if (is_not_found x) _ _ (λ _. Ensures-pure none (λ t f. f.0))
        (λ _. Ensures-raise x (λ t f. f.0))

  finish_upload-Safe :
      (token : Bytes) (ns : NamespaceState) (scope : NamespaceActiveScope) (item : ItemState)
      (r : Result (PutItemResponse × Bytes))
      → item.version < 2 ^ 63
      → Ensures (Tried item r) (finish_upload e token ns scope item r) (λ _. Safe t₀) (Safe t₀)
  unfolding finish_upload
  finish_upload-Safe token ns scope item (ok done) fits = save_upload-Safe ns item done fits
  finish_upload-Safe token ns scope item (err x) fits =
      Ensures-if (is_permanent_upload x) _ _ (λ _. Ensures-pure none (λ t c. c.safe))
        λ _.
          Ensures-if (is_precondition_error x) _ _
            (λ _. Ensures-bind (fetch_and_apply_for_conflict-Safe e t₀ laws ns item) λ _.
              Ensures-bind (get_item_by_id-Found e t₀ laws e.key_id item.namespace_id item.item_id)
                (retry_upload-Safe x token ns scope _ _ _))
            (λ _. Ensures-raise x (λ t c. c.safe))

  -- The body of flushDirtyItems for one item, on every branch: the first upload, the conflict
  -- fetch, the reload, the second upload and every error.
  pub flush_stored-Safe :
      (token : Bytes) (ns : NamespaceState) (scope : NamespaceActiveScope) (k n i : Bytes)
      (r : Result ItemState)
      → Ensures (Found t₀ k n i r) (flush_stored e token ns scope r) (λ _. Safe t₀) (Safe t₀)
  unfolding flush_stored
  flush_stored-Safe token ns scope k n i (ok item) =
      Ensures-if (skips scope item) _ _ (λ _. Ensures-pure none (λ t f. f.0.safe))
        λ _. record {
          at = λ s (c, _, _, _, fits).
              (Ensures-bind (try-Tried token ns item)
                  λ outcome. finish_upload-Safe token ns scope item outcome fits).at
                s c;
        }
  flush_stored-Safe token ns scope k n i (err x) =
      Ensures-if (is_not_found x) _ _ (λ _. Ensures-pure none (λ t f. f.0))
        (λ _. Ensures-raise x (λ t f. f.0))

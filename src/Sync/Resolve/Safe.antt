-- ===== src/Sync/Resolve/Safe.antt =====
-- Resolving a conflict keeps the stored items valid and takes no version back.
use bitboxsync_client_go.Prelude.{ℕ, true, ◌≡◌, arith}
use bitboxsync_client_go.Prelude.Bytes.{Bytes}
use bitboxsync_client_go.Types.{ItemState}
use bitboxsync_client_go.Engine.State.{Engine, Tables}
use bitboxsync_client_go.Engine.Ensures.{
  Ensures, Ensures-bind, Ensures-pure, Ensures-if, Ensures-weaken, bind-quiet, bind-lift,
  call-IsQuiet, now-IsQuiet,
}
use bitboxsync_client_go.Sync.Safe.{IsValid, Start, Safe, Current, DatabaseLaws}
use bitboxsync_client_go.Sync.Safe.Keeps.{Keeps}
use bitboxsync_client_go.Sync.Safe.Store.{save_item-Safe}
use bitboxsync_client_go.Sync.Marks.{clear_item_conflict, mark_item_dirty}
use bitboxsync_client_go.Sync.Marks.Valid.{mark_item_clean-Current}
use bitboxsync_client_go.Sync.Snapshots.Safe.{get_item_by_logical_key-Current}
use bitboxsync_client_go.Sync.Resolve.{
  Collection, stored_item, save_resolved, accept_remote, resolve_conflict_with_value,
  resolve_conflict_prefer_local, resolve_conflict_prefer_remote,
}

module _ {X T : Type 0} (e : Engine X) (t₀ : Start) (laws : DatabaseLaws t₀ e.database)
    (c : Collection X T) where
  cleared-Current :
      (now_at : ℕ) (item : ItemState) (t : Tables)
      → Current t₀ item t
      → Current t₀ (mark_item_dirty now_at (clear_item_conflict item)) t
  unfolding mark_item_dirty clear_item_conflict
  cleared-Current now_at item t h = record {
    safe = h.safe;
    valid = cleared h.valid;
    named = record { map_key = h.named.map_key; named = h.named.named };
    newest = h.newest;
  }
    where
      cleared : IsValid item → IsValid (mark_item_dirty now_at (clear_item_conflict item))
      cleared v = ground arith

  save_resolved-Safe :
      (item : ItemState)
      → Ensures (Current t₀ item) (save_resolved e c item) (λ _. Safe t₀) (Safe t₀)
  unfolding save_resolved
  save_resolved-Safe item =
      bind-quiet (now-IsQuiet e) (λ t h. h.safe)
        λ now_at. Ensures-weaken (cleared-Current now_at item) (save_item-Safe e t₀ laws _)

  accept_remote-Safe :
      (key : Bytes) (item : ItemState)
      → item.conflict ≡ true
      → Ensures (Current t₀ item) (accept_remote e c key item) (λ _. Safe t₀) (Safe t₀)
  unfolding accept_remote
  accept_remote-Safe key item conflict =
      bind-lift (λ t h. h.safe)
        λ value _.
          bind-quiet (call-IsQuiet _) (λ t h. h.safe)
            λ _.
              bind-quiet (now-IsQuiet e) (λ t h. h.safe)
                λ now_at.
                  Ensures-weaken
                    (λ t h.
                      mark_item_clean-Current now_at h item.conflict_remote_version
                        item.conflict_remote_value
                        (omega (arith, h.valid.conflict_version conflict)))
                    (save_item-Safe e t₀ laws _)

  -- ResolveConflictWithValue, ResolveConflictPreferLocal and ResolveConflictPreferRemote, whatever
  -- the backend, the codec and the driver answer, on success and on every error: stored items stay
  -- valid and no stored version goes back.
  pub resolve_conflict-Keeps :
      (key : Bytes) (value : T)
      → Keeps t₀ (resolve_conflict_with_value e c key value)
        × Keeps t₀ (resolve_conflict_prefer_local e c key)
        × Keeps t₀ (resolve_conflict_prefer_remote e c key)
  unfolding resolve_conflict_with_value resolve_conflict_prefer_local resolve_conflict_prefer_remote
      stored_item
  resolve_conflict-Keeps key value = (
    Ensures-bind (get_item_by_logical_key-Current e t₀ laws _ _ _ key) λ item.
        Ensures-if item.conflict _ _
          (λ _. bind-quiet (call-IsQuiet _) (λ t h. h.safe) λ _. save_resolved-Safe item)
          (λ _. Ensures-pure tt (λ t h. h.safe)),
    Ensures-bind (get_item_by_logical_key-Current e t₀ laws _ _ _ key) λ item.
        Ensures-if item.conflict _ _
          (λ _. bind-quiet (call-IsQuiet _) (λ t h. h.safe) λ _. save_resolved-Safe item)
          (λ _. Ensures-pure tt (λ t h. h.safe)),
    Ensures-bind (get_item_by_logical_key-Current e t₀ laws _ _ _ key) λ item.
        Ensures-if item.conflict _ _ (accept_remote-Safe key item)
          (λ _. Ensures-pure tt (λ t h. h.safe)),
  )

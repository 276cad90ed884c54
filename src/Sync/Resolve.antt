-- ===== src/Sync/Resolve.antt =====
-- bitboxsync/collection.go: an app resolves a stored conflict. The caller holds the lock of the
-- item's logical key.
pub mod Safe
use bitboxsync_client_go.Prelude.{Bool, if◌then◌else◌}
use bitboxsync_client_go.Prelude.Bytes.{Bytes}
use bitboxsync_client_go.Result.{Result}
use bitboxsync_client_go.Types.{ItemState}
use bitboxsync_client_go.Sqlite.{save_item, get_item_by_logical_key}
use bitboxsync_client_go.Sync.Marks.{clear_item_conflict, mark_item_clean, mark_item_dirty}
use bitboxsync_client_go.Engine.State.{Engine, M, pure, lift, call, now, ◌>>=◌, ◌>>◌}

-- Collection[T] with its typed backend and its codec.
pub record Collection (X T : Type 0) : Type 0 where
  pub namespace_id : Bytes
  pub name : Bytes
  pub get : Bytes → X → Result T × X
  pub set : Bytes → T → X → Result (Unit {0}) × X
  pub decode : Bytes → Result T

module _ {X T : Type 0} (e : Engine X) (c : Collection X T) where
  unfoldable pub stored_item : Bytes → M X ItemState
  stored_item key = get_item_by_logical_key e e.key_id c.namespace_id c.name key

  -- the conflict is over, and the local value waits for its upload
  unfoldable pub save_resolved : ItemState → M X (Unit {0})
  save_resolved item = do t ← now e; save_item e (mark_item_dirty t (clear_item_conflict item))

  unfoldable pub resolve_conflict_with_value : Bytes → T → M X (Unit {0})
  resolve_conflict_with_value key value = do
    item ← stored_item key
    if item.conflict then (do call (c.set key value); save_resolved item) else pure tt

  unfoldable pub resolve_conflict_prefer_local : Bytes → M X (Unit {0})
  resolve_conflict_prefer_local key = do
    item ← stored_item key
    if item.conflict then (do call (c.get key); save_resolved item) else pure tt

  -- with a conflict: the remote value goes to the backend
  unfoldable pub accept_remote : Bytes → ItemState → M X (Unit {0})
  accept_remote key item = do
    value ← lift (c.decode item.conflict_remote_value)
    call (c.set key value)
    t ← now e
    save_item e (mark_item_clean t item item.conflict_remote_version item.conflict_remote_value)

  unfoldable pub resolve_conflict_prefer_remote : Bytes → M X (Unit {0})
  resolve_conflict_prefer_remote key = do
    item ← stored_item key
    if item.conflict then accept_remote key item else pure tt

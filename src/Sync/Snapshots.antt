-- ===== src/Sync/Snapshots.antt =====
-- bitboxsync/engine_snapshots.go: the app's values against the last clean ones.
pub mod Names
pub mod Cache
pub mod Safe
use bitboxsync_client_go.Prelude.{
  Bool, ◌&&◌, ◌||◌, not, List, [], ◌∷◌, Option, none, some, length, ◌==◌, if◌then◌else◌,
}
use bitboxsync_client_go.Prelude.Bytes.{Bytes, bytes_eq}
use bitboxsync_client_go.Result.{Result, ok, err, is_not_found}
use bitboxsync_client_go.Types.{NamespaceState, ItemState, Dict, get, new_item, item_queued}
use bitboxsync_client_go.Keys.{compose_logical_key}
use bitboxsync_client_go.Protocol.Item.{item_id}
use bitboxsync_client_go.Sqlite.{save_item, get_item_by_logical_key}
use bitboxsync_client_go.Sqlite.Rows.{bytes_ltb, sort_by}
use bitboxsync_client_go.Engine.State.{
  Engine, RegisteredCollection, M, pure, raise, lift, call, attempt, now, emit_item, ◌>>=◌, ◌>>◌,
}
use bitboxsync_client_go.Sync.Marks.{has_merge_base, mark_item_dirty}
use bitboxsync_client_go.Sync.Scope.{NamespaceActiveScope, item_active, load_active_scope}
use bitboxsync_client_go.Sync.Namespaces.{ensure_namespace_ready}
use bitboxsync_client_go.Sync.Values.{registered_collections}

-- the value is new or differs from the last clean one, and nothing is queued for the item yet
unfoldable pub needs_queue : ItemState → Bytes → Bool
needs_queue item value =
    not (item.conflict || item.dirty) && not (has_merge_base item && bytes_eq value item.base_value)

unfoldable pub with_item_id : ItemState → Bytes → ItemState
with_item_id item id = record item {
  item_id = if length item.item_id == 0 then id else item.item_id;
}

module _ {X : Type 0} (e : Engine X) where
  -- the item that is queued, if any
  unfoldable pub queue_item : ItemState → Bytes → M X (Option ItemState)
  queue_item item value =
      if needs_queue item value
      then (do
        t ← now e
        let marked = mark_item_dirty t item
        save_item e marked
        pure (some marked))
      else pure none

  -- what the store says of the logical key
  unfoldable pub queue_found :
      RegisteredCollection X → Bytes → Bytes → Bytes → Result ItemState → M X (Option ItemState)
  queue_found collection key id value (ok item) = queue_item (with_item_id item id) value
  queue_found collection key id value (err x) =
      if is_not_found x
      then queue_item
          (with_item_id (new_item e.key_id collection.namespace_id collection.name key id) id) value
      else raise x

  unfoldable pub reconcile_snapshot_value :
      RegisteredCollection X → Bytes → Bytes → Bytes → M X (Option ItemState)
  reconcile_snapshot_value collection key id value = do
    found ← attempt (get_item_by_logical_key e e.key_id collection.namespace_id collection.name key)
    queue_found collection key id value found

  emit_queued : Option ItemState → M X (Unit {0})
  emit_queued none = pure tt
  emit_queued (some item) = emit_item e item item_queued

  -- the scope cache: loaded once for each namespace of a pass
  unfoldable pub cached_scope :
      NamespaceState
      → Bytes
      → Dict NamespaceActiveScope
      → Option NamespaceActiveScope
      → M X (NamespaceActiveScope × Dict NamespaceActiveScope)
  cached_scope ns id cache (some scope) = pure (scope, cache)
  cached_scope ns id cache none = do
    scope ← load_active_scope e ns
    pure (scope, (id, scope) ∷ cache)

  -- the loop over one snapshot
  unfoldable pub reconcile_values :
      NamespaceState
      → RegisteredCollection X
      → Dict Bytes
      → Dict NamespaceActiveScope
      → M X (Dict NamespaceActiveScope)
  unfolding emit_queued
  reconcile_values ns collection [] cache = pure cache
  reconcile_values ns collection ((key, value) ∷ rest) cache = do
    id ← lift (item_id e.crypto ns.dek (compose_logical_key collection.name key))
    (scope, cache') ←
        cached_scope ns collection.namespace_id cache (get collection.namespace_id cache)
    if item_active scope (new_item [] collection.namespace_id collection.name key id)
        then (do
          queued ← reconcile_snapshot_value collection key id value
          emit_queued queued
          reconcile_values ns collection rest cache')
        else reconcile_values ns collection rest cache'

  keyed_before : Bytes × Bytes → Bytes × Bytes → Bool
  keyed_before (j, _) (k, _) = bytes_ltb j k

  -- the loop over the registered collections
  unfoldable pub reconcile_collections :
      List (RegisteredCollection X) → Dict NamespaceActiveScope → M X (Unit {0})
  unfolding keyed_before
  reconcile_collections [] cache = pure tt
  reconcile_collections (collection ∷ rest) cache = do
    ns ← ensure_namespace_ready e collection.namespace_id []
    values ← call collection.snapshot
    cache' ← reconcile_values ns collection (sort_by keyed_before values) cache
    reconcile_collections rest cache'

  unfoldable pub reconcile_local_snapshots : M X (Unit {0})
  reconcile_local_snapshots = do
    collections ← registered_collections
    reconcile_collections collections []

-- ===== src/Sync/Upload/Loop.antt =====
-- The loop of flushDirtyItems with its caches.
use bitboxsync_client_go.Prelude.{List, [], ◌∷◌, Option, none, some}
use bitboxsync_client_go.Prelude.Bytes.{Bytes}
use bitboxsync_client_go.Types.{ItemState, NamespaceState, Dict}
use bitboxsync_client_go.Engine.State.{Engine}
use bitboxsync_client_go.Engine.Ensures.{Ensures-bind, quiet_rules, pure-IsQuiet}
use bitboxsync_client_go.Sqlite.{list_dirty_items, query}
use bitboxsync_client_go.Sync.Safe.{Start, DatabaseLaws}
use bitboxsync_client_go.Sync.Safe.Keeps.{Keeps, quiet-Keeps, bind-Keeps, if-Keeps}
use bitboxsync_client_go.Sync.Safe.Store.{get_item_by_id-Found}
use bitboxsync_client_go.Sync.Auth.Safe.{access_token-IsQuiet}
use bitboxsync_client_go.Sync.Namespaces.Safe.{ensure_namespace_ready-Keeps}
use bitboxsync_client_go.Sync.Scope.{NamespaceActiveScope}
use bitboxsync_client_go.Sync.Snapshots.Cache.{cached_scope-Keeps}
use bitboxsync_client_go.Sync.Upload.{cached_namespace, flush_items, flush_dirty_items}
use bitboxsync_client_go.Sync.Upload.Safe.{flush_stored-Safe}

module _ {X : Type 0} (e : Engine X) (t₀ : Start) where
  cached_namespace-Keeps :
      (id : Bytes) (o : Option NamespaceState) → Keeps t₀ (cached_namespace e id o)
  unfolding cached_namespace
  cached_namespace-Keeps id (some ns) = quiet-Keeps t₀ (pure-IsQuiet ns)
  cached_namespace-Keeps id none = ensure_namespace_ready-Keeps e t₀ id []

  module _ (laws : DatabaseLaws t₀ e.database) where
    flush_items-Keeps :
        (token : Bytes) (items : List ItemState) (namespaces : Dict NamespaceState)
        (scopes : Dict NamespaceActiveScope)
        → Keeps t₀ (flush_items e token items namespaces scopes)
    unfolding flush_items
    flush_items-Keeps token [] namespaces scopes = quiet-Keeps t₀ (pure-IsQuiet tt)
    flush_items-Keeps token (item ∷ rest) namespaces scopes =
        bind-Keeps t₀ (cached_namespace-Keeps _ _) λ ns.
          bind-Keeps t₀ (cached_scope-Keeps e t₀ ns _ _ _) λ (scope, scopes').
            if-Keeps t₀ _
              (Ensures-bind (get_item_by_id-Found e t₀ laws e.key_id item.namespace_id item.item_id)
                λ stored.
                  Ensures-bind (flush_stored-Safe e t₀ laws token ns scope _ _ _ stored)
                    λ advanced. flush_items-Keeps token rest _ scopes')
              (flush_items-Keeps token rest _ scopes')

    -- flushDirtyItems, whatever the server answers to each upload and each conflict fetch, on
    -- success and on every error: stored items stay valid and no stored version goes back.
    pub flush_dirty_items-Keeps : Keeps t₀ (flush_dirty_items e)
    unfolding flush_dirty_items list_dirty_items query
    flush_dirty_items-Keeps = bind-Keeps t₀ (quiet-Keeps t₀ access_token-IsQuiet) λ token.
        bind-Keeps t₀ (quiet-Keeps t₀ (search quiet_rules)) λ dirty. flush_items-Keeps token _ [] []

-- ===== src/Sync/Scope.antt =====
-- bitboxsync/engine_discovery.go: the items of a namespace that take part in a sync pass.
pub mod Safe
use bitboxsync_client_go.Prelude.{ℕ, Bool, ◌&&◌, List, [], ◌∷◌, ◌++◌, length, ◌==◌, if◌then◌else◌}
use bitboxsync_client_go.Prelude.Bytes.{Bytes, bytes_eq, codes}
use bitboxsync_client_go.Types.{NamespaceState, ItemState, Dict, new_item, contains}
use bitboxsync_client_go.Keys.{compose_logical_key}
use bitboxsync_client_go.Protocol.Hex.{encode_to_string}
use bitboxsync_client_go.Protocol.Item.{item_id}
use bitboxsync_client_go.Protocol.Crypto.{Crypto}
use bitboxsync_client_go.Sqlite.Rows.{bytes_ltb, sort_by}
use bitboxsync_client_go.Engine.State.{Engine, RegisteredCollection, M, pure, lift, call, ◌>>=◌}
use bitboxsync_client_go.Sync.Values.{collection_registrations}

pub record NamespaceActiveScope : Type 0 where
  pub scoped_collections : List Bytes
  pub active_item_ids : List Bytes
  pub active_items : Dict ItemState
  pub active_scope_hash : Bytes

unfoldable pub item_active : NamespaceActiveScope → ItemState → Bool
item_active s item =
    contains item.collection s.scoped_collections && contains item.item_id s.active_item_ids

-- slices.Compact
compact : List Bytes → List Bytes
compact [] = []
compact (x ∷ []) = x ∷ []
compact (x ∷ y ∷ rest) = let rest' = compact (y ∷ rest) in if bytes_eq x y then rest' else x ∷ rest'

unfoldable pub unique_sorted_strings : List Bytes → List Bytes
unfolding compact
unique_sorted_strings values = compact (sort_by bytes_ltb values)

-- a separator byte before each text
tagged : ℕ → List Bytes → Bytes
tagged tag [] = []
tagged tag (x ∷ xs) = (tag ∷ x) ++ tagged tag xs

unfoldable pub compute_hash : Crypto → NamespaceActiveScope → Bytes
unfolding tagged
compute_hash c s =
    if length s.scoped_collections == 0
    then []
    else encode_to_string (
        c.sha256 (
          codes "bitboxsync-active-scope-v1"
          ++ (tagged 0 (unique_sorted_strings s.scoped_collections)
              ++ tagged 1 (unique_sorted_strings s.active_item_ids))))

module _ {X : Type 0} (e : Engine X) where
  -- the loop over one collection's keys
  unfoldable pub scope_keys :
      NamespaceState → Bytes → List Bytes → NamespaceActiveScope → M X NamespaceActiveScope
  scope_keys ns collection [] scope = pure scope
  scope_keys ns collection (key ∷ keys) scope = do
    id ← lift (item_id e.crypto ns.dek (compose_logical_key collection key))
    scope_keys ns collection keys (record scope {
      active_item_ids = id ∷ scope.active_item_ids;
      active_items = (id, new_item e.key_id ns.namespace_id collection key id) ∷ scope.active_items;
    })

  -- the loop over the registered collections
  unfoldable pub scope_collections :
      NamespaceState
      → List (RegisteredCollection X)
      → NamespaceActiveScope
      → M X NamespaceActiveScope
  scope_collections ns [] scope = pure scope
  scope_collections ns (collection ∷ rest) scope = do
    keys ← call collection.keys
    scope' ←
        scope_keys ns collection.name (unique_sorted_strings keys)
          (record scope { scoped_collections = collection.name ∷ scope.scoped_collections })
    scope_collections ns rest scope'

  unfoldable pub load_active_scope : NamespaceState → M X NamespaceActiveScope
  load_active_scope ns = do
    registered ← collection_registrations ns.namespace_id
    scope ← scope_collections ns registered (record {
      scoped_collections = [];
      active_item_ids = [];
      active_items = [];
      active_scope_hash = [];
    })
    pure (record scope { active_scope_hash = compute_hash e.crypto scope })

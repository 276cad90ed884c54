-- ===== src/Sync/Values.antt =====
-- bitboxsync/engine_discovery.go and engine_items.go: the registered collections, and the current
-- values that they keep.
pub mod Quiet
use bitboxsync_client_go.Prelude.{
  Bool, true, false, List, [], ◌∷◌, Option, none, some, if◌then◌else◌,
}
use bitboxsync_client_go.Prelude.Bytes.{Bytes, bytes_eq}
use bitboxsync_client_go.Result.{Error, no_backend, collection_registered}
use bitboxsync_client_go.Types.{ItemState, Dict, get}
use bitboxsync_client_go.Keys.{collection_registry_key}
use bitboxsync_client_go.Sqlite.Rows.{bytes_ltb, sort_by}
use bitboxsync_client_go.Engine.State.{
  RegisteredCollection, State, M, pure, raise, gets, call, modify, ◌>>=◌, ◌>>◌,
}

module _ {X : Type 0} where
  unfoldable pub collection_registration : Bytes → Bytes → M X (Option (RegisteredCollection X))
  collection_registration namespace_id collection =
      gets (λ s. get (collection_registry_key namespace_id collection) s.collections)

  register_new : Bytes → RegisteredCollection X → Option (RegisteredCollection X) → M X (Unit {0})
  register_new key registration (some _) = raise collection_registered
  register_new key registration none =
      modify (λ s. record s { collections = (key, registration) ∷ s.collections })

  unfoldable pub register_collection : RegisteredCollection X → M X (Unit {0})
  unfolding register_new
  register_collection registration = do
    let key = collection_registry_key registration.namespace_id registration.name
    exists ← gets (λ s. get key s.collections)
    register_new key registration exists

  keyed_before : Bytes × RegisteredCollection X → Bytes × RegisteredCollection X → Bool
  keyed_before (j, _) (k, _) = bytes_ltb j k

  values_of : Dict (RegisteredCollection X) → List (RegisteredCollection X)
  values_of [] = []
  values_of ((k, c) ∷ rest) = c ∷ values_of rest

  -- slices.Sorted(maps.Keys(e.collections)); a key is registered once
  unfoldable pub registered_collections : M X (List (RegisteredCollection X))
  unfolding keyed_before values_of
  registered_collections = gets (λ s. values_of (sort_by keyed_before s.collections))

  in_namespace : Bytes → List (RegisteredCollection X) → List (RegisteredCollection X)
  in_namespace namespace_id [] = []
  in_namespace namespace_id (c ∷ cs) =
      let rest = in_namespace namespace_id cs in
      if bytes_eq c.namespace_id namespace_id then c ∷ rest else rest

  unfoldable pub collection_registrations : Bytes → M X (List (RegisteredCollection X))
  unfolding in_namespace registered_collections
  collection_registrations namespace_id = do
    all ← registered_collections
    pure (in_namespace namespace_id all)

  value_of : ItemState → Option (RegisteredCollection X) → M X Bytes
  value_of item none = raise no_backend
  value_of item (some collection) = call (collection.get item.key)

  unfoldable pub item_current_value : ItemState → M X Bytes
  unfolding value_of collection_registration
  item_current_value item = do
    collection ← collection_registration item.namespace_id item.collection
    value_of item collection

  replace_value : ItemState → Bytes → Bool → Bytes → Option (RegisteredCollection X) → M X Bool
  replace_value item current current_found value none = raise no_backend
  replace_value item current current_found value (some collection) =
      call (collection.set_if_current item.key current current_found value)

  unfoldable pub set_item_current_value_if_current : ItemState → Bytes → Bool → Bytes → M X Bool
  unfolding replace_value collection_registration
  set_item_current_value_if_current item current current_found value = do
    collection ← collection_registration item.namespace_id item.collection
    replace_value item current current_found value collection

  merge_with :
      Bytes → Option Bytes → Bytes → Bytes → Option (RegisteredCollection X) → M X (Bytes × Bool)
  merge_with key base local remote none = pure (local, false)
  merge_with key base local remote (some handler) = call (handler.merge_bytes key base local remote)

  unfoldable pub apply_merge :
      Bytes → Bytes → Bytes → Option Bytes → Bytes → Bytes → M X (Bytes × Bool)
  unfolding merge_with collection_registration
  apply_merge namespace_id collection key base local remote = do
    handler ← collection_registration namespace_id collection
    merge_with key base local remote handler

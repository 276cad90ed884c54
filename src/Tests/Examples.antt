-- ===== src/Tests/Examples.antt =====
-- The sync engine's theorems on the small world.
use bitboxsync_client_go.Prelude.{[], ◌∷◌, refl, arith}
use bitboxsync_client_go.Prelude.Bytes.{Bytes}
use bitboxsync_client_go.Engine.Ensures.{Ensures}
use bitboxsync_client_go.Sync.Safe.{Safe}
use bitboxsync_client_go.Sync.Safe.Keeps.{Keeps}
use bitboxsync_client_go.Sync.Items.{
  apply_remote_value_locked, fetch_and_apply_remote_item,
  fetch_and_apply_remote_item_for_conflict_locked,
}
use bitboxsync_client_go.Sync.Items.Safe.{
  KeepsSafe, apply_remote_value_locked-Safe, fetch_and_apply_remote_item-Safe,
  fetch_and_apply_for_conflict-Safe,
}
use bitboxsync_client_go.Sync.Pull.{sync_namespaces}
use bitboxsync_client_go.Sync.Pull.Safe.{sync_namespaces-Keeps}
use bitboxsync_client_go.Sync.Upload.{flush_dirty_items}
use bitboxsync_client_go.Sync.Upload.Loop.{flush_dirty_items-Keeps}
use bitboxsync_client_go.Result.{ok}
use bitboxsync_client_go.Prelude.Bytes.{Bytes}
use bitboxsync_client_go.Sync.Resolve.{
  Collection, resolve_conflict_with_value, resolve_conflict_prefer_local,
  resolve_conflict_prefer_remote,
}
use bitboxsync_client_go.Sync.Resolve.Safe.{resolve_conflict-Keeps}
use bitboxsync_client_go.Sync.Access.{list_all_namespaces}
use mathlib.Core.List.{Perm}
use bitboxsync_client_go.Sync.Access.Ends.{Ends}
use bitboxsync_client_go.Sync.Access.Listed.{IsListed, own_namespaces, list_all_namespaces-IsListed}
use bitboxsync_client_go.Tests.World.{
  namespace_hex, from, small_engine, small_laws, small_namespace, clean_item, clean_item-IsValid,
  clean_item-IsNamed,
}

sync_namespaces-Keeps_example : Keeps from (sync_namespaces small_engine)
sync_namespaces-Keeps_example = sync_namespaces-Keeps small_engine from small_laws refl

flush_dirty_items-Keeps_example : Keeps from (flush_dirty_items small_engine)
flush_dirty_items-Keeps_example = flush_dirty_items-Keeps small_engine from small_laws

apply_remote_value_locked-Safe_example :
    KeepsSafe small_engine from small_laws clean_item
      (apply_remote_value_locked small_engine small_namespace clean_item 5 (66 ∷ []))
apply_remote_value_locked-Safe_example =
    apply_remote_value_locked-Safe small_engine from small_laws small_namespace 5 (66 ∷ [])
      clean_item (omega arith)

fetch_and_apply_remote_item-Safe_example :
    Ensures
      (Safe from)
      (fetch_and_apply_remote_item small_engine small_namespace clean_item 5)
      (λ _. Safe from)
      (Safe from)
fetch_and_apply_remote_item-Safe_example =
    fetch_and_apply_remote_item-Safe small_engine from small_laws small_namespace clean_item 5
      clean_item-IsValid clean_item-IsNamed refl

fetch_and_apply_for_conflict-Safe_example :
    KeepsSafe small_engine from small_laws clean_item
      (fetch_and_apply_remote_item_for_conflict_locked small_engine small_namespace clean_item)
fetch_and_apply_for_conflict-Safe_example =
    fetch_and_apply_for_conflict-Safe small_engine from small_laws small_namespace clean_item

-- a collection whose values are its bytes
abbrev byte_collection : Collection Unit Bytes
byte_collection = record {
  namespace_id = namespace_hex;
  name = 1 ∷ [];
  get = λ key x. (ok (65 ∷ []), x);
  set = λ key value x. (ok tt, x);
  decode = λ value. ok value;
}

resolve_conflict-Keeps_example :
    Keeps from (resolve_conflict_with_value small_engine byte_collection (2 ∷ []) (70 ∷ []))
    × Keeps from (resolve_conflict_prefer_local small_engine byte_collection (2 ∷ []))
    × Keeps from (resolve_conflict_prefer_remote small_engine byte_collection (2 ∷ []))
resolve_conflict-Keeps_example =
    resolve_conflict-Keeps small_engine from small_laws byte_collection (2 ∷ []) (70 ∷ [])

list_all_namespaces-IsListed_example :
    Ends
      (list_all_namespaces small_engine)
      (λ ns t. Perm ns (own_namespaces small_engine t) × IsListed ns)
list_all_namespaces-IsListed_example = list_all_namespaces-IsListed small_engine

-- ===== src/Sync/Values/Quiet.antt =====
-- Reading and writing the app's values touches no table.
use bitboxsync_client_go.Prelude.{Bool, Option, none, some}
use bitboxsync_client_go.Prelude.Bytes.{Bytes}
use bitboxsync_client_go.Types.{ItemState}
use bitboxsync_client_go.Engine.State.{RegisteredCollection}
use bitboxsync_client_go.Engine.Ensures.{IsQuiet, quiet_rules}
use bitboxsync_client_go.Sync.Values.{
  value_of, item_current_value, replace_value, set_item_current_value_if_current, merge_with,
  apply_merge,
}

module _ {X : Type 0} where
  value_of-IsQuiet :
      (item : ItemState) (c : Option (RegisteredCollection X)) → IsQuiet (value_of item c)
  unfolding value_of
  value_of-IsQuiet item none = search quiet_rules
  value_of-IsQuiet item (some c) = search quiet_rules

  replace_value-IsQuiet :
      (item : ItemState) (current : Bytes) (found : Bool) (value : Bytes)
      (c : Option (RegisteredCollection X))
      → IsQuiet (replace_value item current found value c)
  unfolding replace_value
  replace_value-IsQuiet item current found value none = search quiet_rules
  replace_value-IsQuiet item current found value (some c) = search quiet_rules

  merge_with-IsQuiet :
      (key : Bytes) (base : Option Bytes) (local remote : Bytes)
      (c : Option (RegisteredCollection X))
      → IsQuiet (merge_with key base local remote c)
  unfolding merge_with
  merge_with-IsQuiet key base local remote none = search quiet_rules
  merge_with-IsQuiet key base local remote (some c) = search quiet_rules

  pub item_current_value-IsQuiet : (item : ItemState) → IsQuiet {X = X} (item_current_value item)
  unfolding item_current_value
  item_current_value-IsQuiet item = search (quiet_rules, value_of-IsQuiet)

  pub set_item_current_value-IsQuiet :
      (item : ItemState) (current : Bytes) (found : Bool) (value : Bytes)
      → IsQuiet {X = X} (set_item_current_value_if_current item current found value)
  unfolding set_item_current_value_if_current
  set_item_current_value-IsQuiet item current found value =
      search (quiet_rules, replace_value-IsQuiet)

  pub apply_merge-IsQuiet :
      (n c k : Bytes) (base : Option Bytes) (local remote : Bytes)
      → IsQuiet {X = X} (apply_merge n c k base local remote)
  unfolding apply_merge
  apply_merge-IsQuiet n c k base local remote = search (quiet_rules, merge_with-IsQuiet)

-- ===== src/Sync/Marks.antt =====
-- bitboxsync/engine_items.go: the marks on an item's metadata. `touchItem` sets the time that the
-- caller reads from the clock.
pub mod Valid
use bitboxsync_client_go.Prelude.{ℕ, Bool, true, false, ◌||◌, not, [], length, ◌==◌}
use bitboxsync_client_go.Prelude.Bytes.{Bytes}
use bitboxsync_client_go.Types.{ItemState}

unfoldable pub has_merge_base : ItemState → Bool
has_merge_base item = not (item.base_version == 0) || not (length item.base_value == 0)

unfoldable pub clear_item_conflict : ItemState → ItemState
clear_item_conflict item = record item {
  conflict = false;
  conflict_remote_version = 0;
  conflict_remote_value = [];
}

unfoldable pub touch_item : ℕ → ItemState → ItemState
touch_item t item = record item { updated_at = t }

unfoldable pub mark_item_clean : ℕ → ItemState → ℕ → Bytes → ItemState
unfolding clear_item_conflict touch_item
mark_item_clean t item version base_value =
    let marked = record item {
      version = version;
      base_version = version;
      base_value = base_value;
      dirty = false;
    } in
    touch_item t (clear_item_conflict marked)

unfoldable pub mark_item_dirty : ℕ → ItemState → ItemState
unfolding touch_item
mark_item_dirty t item = touch_item t (record item { dirty = true })

unfoldable pub mark_item_dirty_with_base : ℕ → ItemState → ℕ → Bytes → ItemState
unfolding clear_item_conflict touch_item
mark_item_dirty_with_base t item version base_value =
    let marked = record item {
      version = version;
      base_version = version;
      base_value = base_value;
      dirty = true;
    } in
    touch_item t (clear_item_conflict marked)

unfoldable pub mark_item_conflict : ℕ → ItemState → ℕ → Bytes → ItemState
unfolding touch_item
mark_item_conflict t item remote_version remote_value = touch_item t (record item {
  version = remote_version;
  dirty = true;
  conflict = true;
  conflict_remote_version = remote_version;
  conflict_remote_value = remote_value;
})

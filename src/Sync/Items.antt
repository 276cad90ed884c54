-- ===== src/Sync/Items.antt =====
-- bitboxsync/engine_items.go: a downloaded value meets the local one. The caller holds the lock of
-- the item's logical key.
pub mod Safe
pub mod RoundTrip
use bitboxsync_client_go.Prelude.{
  ℕ, Bool, true, false, ◌&&◌, [], Option, none, some, if◌then◌else◌, ltb, leb, length, ◌==◌,
}
use bitboxsync_client_go.Prelude.Bytes.{Bytes, bytes_eq}
use bitboxsync_client_go.Result.{Error, Result, ok, err, rollback, is_not_found}
use bitboxsync_client_go.Result
use bitboxsync_client_go.Types.{
  NamespaceState, ItemState, conflict_detected, item_changed, item_downloaded, item_queued,
}
use bitboxsync_client_go.Api.{GetItemResponse}
use bitboxsync_client_go.Client.{get_item}
use bitboxsync_client_go.Protocol.Crypto.{Crypto}
use bitboxsync_client_go.Protocol.Item.{
  decode_base64, decode_base64_exact, verify_aad, decrypt_item, item_nonce_length,
}
use bitboxsync_client_go.Sqlite.{save_item, get_item_by_id}
use bitboxsync_client_go.Engine.State.{
  Engine, State, M, pure, raise, lift, gets, attempt, refuse_if, now, emit_item, ◌>>=◌, ◌>>◌,
}
use bitboxsync_client_go.Sync.Identity.{access_token}
use bitboxsync_client_go.Sync.Marks.{
  has_merge_base, mark_item_clean, mark_item_dirty, mark_item_dirty_with_base, mark_item_conflict,
}
use bitboxsync_client_go.Sync.Values.{
  item_current_value, set_item_current_value_if_current, apply_merge,
}

unfoldable pub decrypt_remote_item :
    Crypto → NamespaceState → Bytes → GetItemResponse → Result Bytes
decrypt_remote_item c namespace_state item_id resp =
    Result.◌>>=◌ (decode_base64_exact c "nonce" resp.nonce item_nonce_length) λ nonce.
      Result.◌>>=◌ (decode_base64 c "aad" resp.aad) λ aad.
        Result.◌>>=◌ (decode_base64 c "ciphertext" resp.ciphertext) λ ciphertext.
          Result.◌>>=◌ (verify_aad namespace_state.namespace_id item_id resp.version aad)
            λ _. decrypt_item c namespace_state.dek nonce aad ciphertext

-- what becomes of the item when the merge is resolved
unfoldable pub mark_merged : ℕ → ItemState → ℕ → Bytes → Bytes → ItemState
mark_merged t item remote_version remote_value merged =
    if bytes_eq merged remote_value
    then mark_item_clean t item remote_version remote_value
    else mark_item_dirty_with_base t item remote_version remote_value

abbrev pub merge_base : ItemState → Option Bytes
merge_base item = if has_merge_base item then some item.base_value else none

module _ {X : Type 0} (e : Engine X) where
  unfoldable pub keep_dirty_after_value_race : ItemState → M X (Unit {0})
  keep_dirty_after_value_race item = do
    t ← now e
    let marked = mark_item_dirty t item
    save_item e marked
    emit_item e marked item_queued

  unfoldable pub apply_clean_remote_value : ItemState → ℕ → Bytes → Bytes → Bool → M X (Unit {0})
  apply_clean_remote_value item remote_version remote_value current_value current_found = do
    replaced ← set_item_current_value_if_current item current_value current_found remote_value
    if replaced
        then (do
          t ← now e
          let marked = mark_item_clean t item remote_version remote_value
          save_item e marked
          emit_item e marked item_changed
          emit_item e marked item_downloaded)
        else keep_dirty_after_value_race item

  -- the end of applyRemoteValueLocked
  unfoldable pub save_merged : ItemState → M X (Unit {0})
  save_merged item = do
    save_item e item
    emit_item e item (if item.conflict then conflict_detected else item_changed)

  unfoldable pub store_merge : ItemState → ℕ → Bytes → Bytes → Bytes × Bool → M X (Unit {0})
  store_merge item remote_version remote_value local_value (merged, true) = do
    replaced ← set_item_current_value_if_current item local_value true merged
    if replaced
        then (do t ← now e; save_merged (mark_merged t item remote_version remote_value merged))
        else keep_dirty_after_value_race item
  store_merge item remote_version remote_value local_value (merged, false) = do
    t ← now e
    save_merged (mark_item_conflict t item remote_version remote_value)

  -- applyRemoteValueLocked from the comparison of the two values on
  unfoldable pub merge_remote_value :
      NamespaceState → ItemState → ℕ → Bytes → Bytes → M X (Unit {0})
  merge_remote_value namespace_state item remote_version remote_value local_value =
      if bytes_eq local_value remote_value
      then apply_clean_remote_value item remote_version remote_value local_value true
      else do
        outcome ←
            apply_merge namespace_state.namespace_id item.collection item.key (merge_base item)
              local_value remote_value
        store_merge item remote_version remote_value local_value outcome

  -- what the backend returned for a clean item
  unfoldable pub meet_clean_item :
      NamespaceState → ItemState → ℕ → Bytes → Result Bytes → M X (Unit {0})
  meet_clean_item namespace_state item remote_version remote_value (ok local_value) =
      if has_merge_base item && bytes_eq local_value item.base_value
      then apply_clean_remote_value item remote_version remote_value local_value true
      else do
        t ← now e
        merge_remote_value namespace_state (mark_item_dirty t item) remote_version remote_value
            local_value
  meet_clean_item namespace_state item remote_version remote_value (err x) =
      if is_not_found x
      then apply_clean_remote_value item remote_version remote_value [] false
      else raise x

  unfoldable pub apply_remote_value_locked : NamespaceState → ItemState → ℕ → Bytes → M X (Unit {0})
  apply_remote_value_locked namespace_state item remote_version remote_value =
      if item.conflict
      then (do
        t ← now e
        let marked = mark_item_conflict t item remote_version remote_value
        save_item e marked
        emit_item e marked conflict_detected)
      else if item.dirty
      then (do
        local_value ← item_current_value item
        merge_remote_value namespace_state item remote_version remote_value local_value)
      else do
        found ← attempt (item_current_value item)
        meet_clean_item namespace_state item remote_version remote_value found

  -- under the lock: the stored item, or the one at hand where none is stored
  unfoldable pub apply_fetched_item :
      NamespaceState → ItemState → ℕ → Bytes → Result ItemState → M X (Unit {0})
  apply_fetched_item namespace_state item remote_version remote_value (ok current_item) =
      if leb remote_version current_item.version
      then pure tt
      else apply_remote_value_locked namespace_state current_item remote_version remote_value
  apply_fetched_item namespace_state item remote_version remote_value (err x) =
      if is_not_found x
      then if length item.key_id == 0
        then pure tt
        else if leb remote_version item.version
        then pure tt
        else apply_remote_value_locked namespace_state item remote_version remote_value
      else raise x

  unfoldable pub fetch_and_apply_remote_item : NamespaceState → ItemState → ℕ → M X (Unit {0})
  fetch_and_apply_remote_item namespace_state item remote_version = do
    token ← access_token
    resp ← get_item e token namespace_state.namespace_id item.item_id
    refuse_if (ltb resp.version item.version) rollback
    remote_value ← lift (decrypt_remote_item e.crypto namespace_state item.item_id resp)
    refuse_if (ltb resp.version remote_version) rollback
    stored ← attempt (get_item_by_id e e.key_id item.namespace_id item.item_id)
    apply_fetched_item namespace_state item resp.version remote_value stored

  unfoldable pub fetch_and_apply_remote_item_for_conflict_locked :
      NamespaceState → ItemState → M X (Unit {0})
  fetch_and_apply_remote_item_for_conflict_locked namespace_state item = do
    token ← access_token
    resp ← get_item e token namespace_state.namespace_id item.item_id
    refuse_if (ltb resp.version item.version) rollback
    remote_value ← lift (decrypt_remote_item e.crypto namespace_state item.item_id resp)
    apply_remote_value_locked namespace_state item resp.version remote_value

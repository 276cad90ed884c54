-- ===== src/Sync/Upload.antt =====
-- bitboxsync/engine_items.go: the push phase of a sync pass.
pub mod Safe
pub mod Loop
use bitboxsync_client_go.Prelude.{
  ℕ, ◌-◌, ◌*◌, Bool, ◌||◌, not, List, [], ◌∷◌, Option, none, some, ltb, length, if◌then◌else◌,
}
use bitboxsync_client_go.Prelude.Bytes.{Bytes}
use bitboxsync_client_go.Result.{
  Error, Result, ok, err, permanent_upload, other, is_not_found, is_permanent_upload,
  is_precondition_error,
}
use bitboxsync_client_go.Types.{NamespaceState, ItemState, Dict, get, item_uploaded}
use bitboxsync_client_go.Api.{PutItemResponse}
use bitboxsync_client_go.Client.{put_item, next_version}
use bitboxsync_client_go.Protocol.Item.{prepare_item, seal_item, item_nonce_length}
use bitboxsync_client_go.Sqlite.{save_item, save_namespace, get_item_by_id, list_dirty_items}
use bitboxsync_client_go.Sqlite.Rows.{sort_by}
use bitboxsync_client_go.Engine.State.{
  Engine, M, pure, raise, lift, call, attempt, now, emit_item, ◌>>=◌, ◌>>◌,
}
use bitboxsync_client_go.Sync.Identity.{access_token}
use bitboxsync_client_go.Sync.Marks.{mark_item_clean}
use bitboxsync_client_go.Sync.Values.{item_current_value}
use bitboxsync_client_go.Sync.Scope.{NamespaceActiveScope, item_active}
use bitboxsync_client_go.Sync.Namespaces.{ensure_namespace_ready}
use bitboxsync_client_go.Sync.Snapshots.{cached_scope}
use bitboxsync_client_go.Sync.Items.{fetch_and_apply_remote_item_for_conflict_locked}

abbrev pub max_item_ciphertext_size : ℕ
max_item_ciphertext_size = 64 * 1024

-- chacha20poly1305.Overhead
abbrev pub overhead : ℕ
overhead = 16

unfoldable pub validate_upload_value_size : Bytes → Result (Unit {0})
validate_upload_value_size value =
    if ltb (max_item_ciphertext_size - overhead) (length value)
    then err (other "ciphertext size")
    else ok tt

-- an error that no later try will mend
abbrev permanently : Result (Unit {0}) → Result (Unit {0})
permanently (ok _) = ok tt
permanently (err x) = err (permanent_upload x)

-- the version that the upload asks for, bound into its associated data
unfoldable pub target_version : ItemState → ℕ
target_version item = if ltb 0 item.version then next_version item.version else 1

unfoldable pub if_match : ItemState → Option ℕ
if_match item = if ltb 0 item.version then some item.version else none

unfoldable pub updated_before : ItemState → ItemState → Bool
updated_before a b = ltb a.updated_at b.updated_at

-- nothing is to be uploaded for the item
unfoldable pub skips : NamespaceActiveScope → ItemState → Bool
skips scope item = item.conflict || (not item.dirty || not (item_active scope item))

module _ {X : Type 0} (e : Engine X) where
  -- a missing value will not be there at the next try either
  value_or_permanent : Result Bytes → M X Bytes
  value_or_permanent (ok value) = pure value
  value_or_permanent (err x) = if is_not_found x then raise (permanent_upload x) else raise x

  unfoldable pub upload : Bytes → NamespaceState → ItemState → M X (PutItemResponse × Bytes)
  unfolding value_or_permanent
  upload token ns item = do
    found ← attempt (item_current_value item)
    value ← value_or_permanent found
    lift (permanently (validate_upload_value_size value))
    prepared ←
        lift (prepare_item e.crypto item.namespace_id item.item_id (target_version item) ns.dek)
    nonce ← call (e.random item_nonce_length)
    let (aad, ciphertext) = seal_item e.crypto prepared nonce value
    resp ←
        put_item e token item.namespace_id item.item_id
          (record {
            nonce = e.crypto.encode_base64 nonce;
            aad = e.crypto.encode_base64 aad;
            ciphertext = e.crypto.encode_base64 ciphertext;
          })
          (if_match item)
    pure (resp, value)

  -- the namespace state with the head that the upload made
  unfoldable pub save_upload :
      NamespaceState → ItemState → PutItemResponse × Bytes → M X (Option NamespaceState)
  save_upload ns item (resp, value) = do
    t ← now e
    let marked = mark_item_clean t item resp.version value
    save_item e marked
    t' ← now e
    let advanced = record ns { namespace_head = next_version ns.namespace_head; updated_at = t' }
    save_namespace e advanced
    emit_item e marked item_uploaded
    pure (some advanced)

  -- The second try is the last one. The error of the conditional block shadows the outer one, which is
  -- that of the first try: where the second fails for another reason, the method returns the first's.
  finish_retry :
      Error
      → NamespaceState
      → ItemState
      → Result (PutItemResponse × Bytes)
      → M X (Option NamespaceState)
  finish_retry first ns item (ok done) = save_upload ns item done
  finish_retry first ns item (err x) =
      if is_permanent_upload x
      then pure none
      else if is_precondition_error x
      then (do fetch_and_apply_remote_item_for_conflict_locked e ns item; pure none)
      else raise first

  -- after the conflict fetch: the item as it is stored now
  unfoldable pub retry_upload :
      Error
      → Bytes
      → NamespaceState
      → NamespaceActiveScope
      → Result ItemState
      → M X (Option NamespaceState)
  unfolding finish_retry
  retry_upload first token ns scope (ok item) =
      if skips scope item
      then pure none
      else do outcome ← attempt (upload token ns item); finish_retry first ns item outcome
  retry_upload first token ns scope (err x) = if is_not_found x then pure none else raise x

  -- the first try
  unfoldable pub finish_upload :
      Bytes
      → NamespaceState
      → NamespaceActiveScope
      → ItemState
      → Result (PutItemResponse × Bytes)
      → M X (Option NamespaceState)
  finish_upload token ns scope item (ok done) = save_upload ns item done
  finish_upload token ns scope item (err x) =
      if is_permanent_upload x
      then pure none
      else if is_precondition_error x
      then (do
        fetch_and_apply_remote_item_for_conflict_locked e ns item
        stored ← attempt (get_item_by_id e e.key_id item.namespace_id item.item_id)
        retry_upload x token ns scope stored)
      else raise x

  -- under the lock of the logical key
  unfoldable pub flush_stored :
      Bytes → NamespaceState → NamespaceActiveScope → Result ItemState → M X (Option NamespaceState)
  flush_stored token ns scope (ok item) =
      if skips scope item
      then pure none
      else do outcome ← attempt (upload token ns item); finish_upload token ns scope item outcome
  flush_stored token ns scope (err x) = if is_not_found x then pure none else raise x

  cached_namespace : Bytes → Option NamespaceState → M X NamespaceState
  cached_namespace id (some ns) = pure ns
  cached_namespace id none = ensure_namespace_ready e id []

  abbrev advanced_or : NamespaceState → Option NamespaceState → NamespaceState
  advanced_or ns none = ns
  advanced_or ns (some advanced) = advanced

  -- the loop over the dirty items, with the two caches
  unfoldable pub flush_items :
      Bytes → List ItemState → Dict NamespaceState → Dict NamespaceActiveScope → M X (Unit {0})
  unfolding cached_namespace
  flush_items token [] namespaces scopes = pure tt
  flush_items token (item ∷ rest) namespaces scopes = do
    ns ← cached_namespace item.namespace_id (get item.namespace_id namespaces)
    (scope, scopes') ← cached_scope e ns item.namespace_id scopes (get item.namespace_id scopes)
    if item_active scope item
        then (do
          stored ← attempt (get_item_by_id e e.key_id item.namespace_id item.item_id)
          advanced ← flush_stored token ns scope stored
          flush_items token rest ((item.namespace_id, advanced_or ns advanced) ∷ namespaces)
              scopes')
        else flush_items token rest ((item.namespace_id, ns) ∷ namespaces) scopes'

  unfoldable pub flush_dirty_items : M X (Unit {0})
  flush_dirty_items = do
    token ← access_token
    dirty ← list_dirty_items e e.key_id
    flush_items token (sort_by updated_before dirty) [] []

-- ===== src/Sync/Pull.antt =====
-- bitboxsync/engine_items.go and engine_namespace.go: the pull phase of a sync pass.
pub mod Index
pub mod Safe
pub mod Rollback
use bitboxsync_client_go.Prelude.{
  ℕ, ◌&&◌, ◌||◌, not, List, [], ◌∷◌, Option, none, some, ltb, leb, length, ◌==◌, map, if◌then◌else◌,
}
use bitboxsync_client_go.Prelude.Bytes.{Bytes, bytes_eq, codes}
use bitboxsync_client_go.Result
use bitboxsync_client_go.Result.{Error, Result, ok, err, rollback, other}
use bitboxsync_client_go.Types.{
  IdentityState, NamespaceState, ItemState, Dict, get, contains, new_event, unknown_remote_item,
  namespace_changed,
}
use bitboxsync_client_go.Api.{NamespaceSummary}
use bitboxsync_client_go.Client
use bitboxsync_client_go.Sqlite.{list_namespace_items, list_namespaces, save_namespace}
use bitboxsync_client_go.Engine.State.{
  Engine, M, pure, lift, attempt, refuse_if, now, emit, ◌>>=◌, ◌>>◌,
}
use bitboxsync_client_go.Sync.Identity.{access_token, identity_state_snapshot, save_identity_state}
use bitboxsync_client_go.Sync.Scope.{NamespaceActiveScope, item_active, load_active_scope}
use bitboxsync_client_go.Sync.Items.{fetch_and_apply_remote_item}
use bitboxsync_client_go.Sync.Namespaces.{
  get_namespace_state, or_new_namespace, join_namespace, validate_namespace_kind,
}

-- A local item must not be ahead of the server, nor gone from it.
unfoldable pub check_local : Option ℕ → ItemState → Result (Unit {0})
check_local (some remote_version) item = Result.refuse_if (ltb remote_version item.version) rollback
check_local none item = Result.refuse_if (ltb 0 item.version) rollback

-- The loop over the local items: those in scope by ID, and the IDs of the others.
unfoldable pub index_local :
    NamespaceActiveScope
    → Dict ℕ
    → List ItemState
    → Dict ItemState
    → List Bytes
    → Result (Dict ItemState × List Bytes)
index_local scope remote [] by_id inactive = ok (by_id, inactive)
index_local scope remote (item ∷ items) by_id inactive =
    let active_rest = index_local scope remote items ((item.item_id, item) ∷ by_id) inactive in
    let inactive_rest = index_local scope remote items by_id (item.item_id ∷ inactive) in
    Result.◌>>=◌ (check_local (get item.item_id remote) item)
      λ _. if item_active scope item then active_rest else inactive_rest

abbrev keep_known : Bytes → ItemState → Dict ItemState → Option ItemState → Dict ItemState
keep_known id item by_id (some known) = by_id
keep_known id item by_id none = (id, item) ∷ by_id

-- The loop over scope.activeItems.
unfoldable pub add_active : Dict ItemState → Dict ItemState → Dict ItemState
add_active [] by_id = by_id
add_active ((id, item) ∷ rest) by_id = add_active rest (keep_known id item by_id (get id by_id))

-- The first loop over the listed namespaces: the ID of the remote default namespace.
unfoldable pub check_summaries : Bytes → List NamespaceSummary → Bytes → Result Bytes
check_summaries default_id [] remote_default = ok remote_default
check_summaries default_id (n ∷ ns) remote_default =
    Result.◌>>=◌ (validate_namespace_kind n.kind) λ _.
      Result.◌>>=◌
        (Result.refuse_if
          (not (length default_id == 0)
            && (bytes_eq n.namespace_id default_id && not (bytes_eq n.kind (codes "default"))))
          rollback)
        λ _.
          Result.◌>>=◌
            (Result.refuse_if
              (bytes_eq n.kind (codes "default")
                && (not (length remote_default == 0)
                    && not (bytes_eq remote_default n.namespace_id)))
              (other "server returned multiple default namespaces"))
            λ _.
              check_summaries default_id ns
                (if bytes_eq n.kind (codes "default") then n.namespace_id else remote_default)

-- No local namespace may be gone.
unfoldable pub check_present : List Bytes → List NamespaceState → Result (Unit {0})
check_present ids [] = ok tt
check_present ids (n ∷ ns) =
    Result.◌>>=◌ (Result.refuse_if (not (contains n.namespace_id ids)) rollback)
      λ _. check_present ids ns

-- The checks before anything is changed.
unfoldable pub check_namespaces :
    Bytes → List NamespaceSummary → List NamespaceState → Result (Unit {0})
check_namespaces default_id remote local =
    let ids = map (λ n. n.namespace_id) remote in
    Result.◌>>=◌ (check_summaries default_id remote []) λ remote_default.
      Result.◌>>=◌
        (Result.refuse_if
          (not (length default_id == 0)
            && (not (length remote_default == 0) && not (bytes_eq default_id remote_default)))
          rollback)
        λ _.
          Result.◌>>=◌
            (Result.refuse_if (not (length default_id == 0) && not (contains default_id ids))
              rollback)
            λ _. check_present ids local

module _ {X : Type 0} (e : Engine X) where
  -- one entry of the server's map
  unfoldable pub pull_item :
      NamespaceState → List Bytes → Bytes → ℕ → Option ItemState → M X (Unit {0})
  pull_item ns inactive id remote_version none =
      if contains id inactive
      then pure tt
      else emit e
          (record (new_event unknown_remote_item) { namespace_id = ns.namespace_id; item_id = id })
  pull_item ns inactive id remote_version (some item) =
      if leb remote_version item.version
      then pure tt
      else fetch_and_apply_remote_item e ns item remote_version

  unfoldable pub pull_items : NamespaceState → Dict ItemState → List Bytes → Dict ℕ → M X (Unit {0})
  pull_items ns by_id inactive [] = pure tt
  pull_items ns by_id inactive ((id, remote_version) ∷ rest) = do
    pull_item ns inactive id remote_version (get id by_id)
    pull_items ns by_id inactive rest

  unfoldable pub sync_namespace_items : NamespaceState → ℕ → NamespaceActiveScope → M X (Unit {0})
  sync_namespace_items ns expected_head scope = do
    token ← access_token
    resp ← Client.get_namespace_items e token ns.namespace_id
    refuse_if (ltb resp.namespace_head ns.namespace_head) rollback
    refuse_if (ltb resp.namespace_head expected_head) rollback
    local_items ← list_namespace_items e e.key_id ns.namespace_id
    (by_id, inactive) ← lift (index_local scope resp.items local_items [] [])
    pull_items ns (add_active scope.active_items by_id) inactive resp.items
    t ← now e
    save_namespace e (record ns {
      namespace_head =
          if ltb resp.namespace_head expected_head then expected_head else resp.namespace_head;
      active_scope_hash = scope.active_scope_hash;
      updated_at = t;
    })
    emit e (record (new_event namespace_changed) { namespace_id = ns.namespace_id })

  -- the items are fetched when the head or the scope changed
  unfoldable pub advance_namespace :
      Bytes → NamespaceState → ℕ → NamespaceActiveScope → M X (Unit {0})
  advance_namespace namespace_id local remote_head scope =
      if ltb local.namespace_head remote_head
        || not (bytes_eq scope.active_scope_hash local.active_scope_hash)
      then (do
        sync_namespace_items local remote_head scope
        reloaded ← get_namespace_state e namespace_id
        pure tt)
      else do
        t ← now e
        save_namespace e (record local {
          namespace_head = remote_head;
          active_scope_hash = scope.active_scope_hash;
          updated_at = t;
        })

  -- a first default namespace is remembered
  unfoldable pub adopt_default : NamespaceSummary → IdentityState → M X IdentityState
  adopt_default remote state =
      if bytes_eq remote.kind (codes "default") && length state.default_namespace_id == 0
      then (do
        t ← now e
        let adopted = record state { default_namespace_id = remote.namespace_id; updated_at = t }
        save_identity_state e adopted
        pure adopted)
      else pure state

  -- the second loop over the listed namespaces
  unfoldable pub sync_each : List NamespaceSummary → IdentityState → M X (Unit {0})
  sync_each [] state = pure tt
  sync_each (remote ∷ rest) state = do
    found ← attempt (get_namespace_state e remote.namespace_id)
    stored ← or_new_namespace e remote.namespace_id remote.kind found
    refuse_if (ltb remote.namespace_head stored.namespace_head) rollback
    let named = record stored { kind = remote.kind }
    local ←
        if length named.dek == 0
        then join_namespace e remote.namespace_id remote.kind
        else pure named
    scope ← load_active_scope e local
    advance_namespace remote.namespace_id local remote.namespace_head scope
    state' ← adopt_default remote state
    sync_each rest state'

  unfoldable pub sync_namespaces : M X (Unit {0})
  sync_namespaces = do
    state ← identity_state_snapshot
    remote ← Client.list_namespaces e state.access_token
    local ← list_namespaces e e.key_id
    lift (check_namespaces state.default_namespace_id remote local)
    sync_each remote state

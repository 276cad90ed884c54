-- ===== src/Sqlite.antt =====
-- storage/sqlite/store.go: the store that the engine is given, over the rows of its three tables.
-- What SQLite does with each statement is written as a function of the rows; the driver may fail
-- any statement, and then nothing changes. A row holds the state that `scanItem` reads back.
pub mod Rows
pub mod Forget
use bitboxsync_client_go.Prelude.{
  ℕ, Bool, true, false, ◌&&◌, not, List, [], ◌∷◌, Option, none, some, ◌==◌, map, if◌then◌else◌,
}
use bitboxsync_client_go.Prelude.Bytes.{Bytes, bytes_eq}
use bitboxsync_client_go.Result.{Error, Result, ok, err, not_found, other}
use bitboxsync_client_go.Types.{IdentityState, NamespaceState, ItemState}
use bitboxsync_client_go.Engine.State.{
  Engine, Tables, State, M, pure, raise, gets, call, modify, refuse_if, now, ◌>>=◌, ◌>>◌,
}
use bitboxsync_client_go.Sqlite.Rows.{
  find, select, upsert, sort_by, same_item, same_namespace, same_identity, breaks_logical_key,
  is_before, namespace_is_before, has_item_id, has_logical_key,
}

module _ {X : Type 0} (e : Engine X) where
  unfoldable pub exec : List ℕ → List Bytes → M X (Unit {0})
  exec args texts = call (e.database.exec args texts)

  unfoldable pub query : M X (Unit {0})
  query = call e.database.query

  -- `if state.UpdatedAt.IsZero() { state.UpdatedAt = time.Now().UTC() }`
  unfoldable pub stamp : ℕ → M X ℕ
  stamp t = if t == 0 then now e else pure t

  unfoldable pub or_not_found : {A : Type 0} → Option A → M X A
  or_not_found none = raise not_found
  or_not_found (some a) = pure a

  unfoldable pub put_rows : Tables → M X (Unit {0})
  put_rows t = modify (λ s. record s { tables = t })

  -- The primary key decides between insert and update; the unique index on the logical key refuses
  -- a row that another item holds.
  unfoldable pub save_item : ItemState → M X (Unit {0})
  save_item state = do
    t ← stamp state.updated_at
    let row = record state { updated_at = t }
    exec (row.version ∷ row.base_version ∷ row.conflict_remote_version ∷ [])
        (row.key_id ∷ row.namespace_id ∷ row.collection ∷ row.key ∷ row.item_id ∷ [])
    tables ← gets (λ s. s.tables)
    refuse_if (breaks_logical_key row tables.items) (other "unique index on the logical key")
    put_rows (record tables { items = upsert same_item row tables.items })

  unfoldable pub get_item_by_id : Bytes → Bytes → Bytes → M X ItemState
  get_item_by_id key_id namespace_id item_id = do
    query
    tables ← gets (λ s. s.tables)
    or_not_found (find (has_item_id key_id namespace_id item_id) tables.items)

  unfoldable pub get_item_by_logical_key : Bytes → Bytes → Bytes → Bytes → M X ItemState
  get_item_by_logical_key key_id namespace_id collection key = do
    query
    tables ← gets (λ s. s.tables)
    or_not_found (find (has_logical_key key_id namespace_id collection key) tables.items)

  unfoldable pub list_namespace_items : Bytes → Bytes → M X (List ItemState)
  list_namespace_items key_id namespace_id = do
    query
    tables ← gets (λ s. s.tables)
    pure (
        sort_by is_before (
          select (λ row. bytes_eq row.key_id key_id && bytes_eq row.namespace_id namespace_id)
            tables.items))

  unfoldable pub list_dirty_items : Bytes → M X (List ItemState)
  list_dirty_items key_id = do
    query
    tables ← gets (λ s. s.tables)
    pure (sort_by is_before (select (λ row. bytes_eq row.key_id key_id && row.dirty) tables.items))

  unfoldable pub save_namespace : NamespaceState → M X (Unit {0})
  save_namespace state = do
    t ← stamp state.updated_at
    let row = record state { updated_at = t }
    exec (row.namespace_head ∷ [])
        (row.key_id ∷ row.namespace_id ∷ row.kind ∷ row.active_scope_hash ∷ [])
    tables ← gets (λ s. s.tables)
    put_rows (record tables { namespaces = upsert same_namespace row tables.namespaces })

  unfoldable pub get_namespace : Bytes → Bytes → M X NamespaceState
  get_namespace key_id namespace_id = do
    query
    tables ← gets (λ s. s.tables)
    or_not_found (
        find (λ row. bytes_eq row.key_id key_id && bytes_eq row.namespace_id namespace_id)
          tables.namespaces)

  unfoldable pub list_namespaces : Bytes → M X (List NamespaceState)
  list_namespaces key_id = do
    query
    tables ← gets (λ s. s.tables)
    pure
        (sort_by namespace_is_before (select (λ row. bytes_eq row.key_id key_id) tables.namespaces))

  unfoldable pub save_identity : IdentityState → M X (Unit {0})
  save_identity state = do
    t ← stamp state.updated_at
    exec [] (state.key_id ∷ state.kind ∷ state.access_token ∷ state.default_namespace_id ∷ [])
    tables ← gets (λ s. s.tables)
    put_rows (record tables {
      identities = upsert same_identity (record state { updated_at = t }) tables.identities;
    })

  unfoldable pub load_identity : Bytes → M X IdentityState
  load_identity key_id = do
    query
    tables ← gets (λ s. s.tables)
    or_not_found (find (λ row. bytes_eq row.key_id key_id) tables.identities)

  -- One transaction: on an error the deferred rollback leaves all rows as they were.
  unfoldable pub forget_identity_secrets : Bytes → M X (Unit {0})
  forget_identity_secrets key_id = do
    t ← now e
    exec [] (key_id ∷ [])
    exec [] (key_id ∷ [])
    exec [] (key_id ∷ [])
    exec [] (key_id ∷ [])
    tables ← gets (λ s. s.tables)
    put_rows (record tables {
      identities =
          map
            (λ row.
              if bytes_eq row.key_id key_id
              then record row { access_token = []; token_expiry = 0; updated_at = t }
              else row)
            tables.identities;
      namespaces =
          map
            (λ row.
              if bytes_eq row.key_id key_id then record row { dek = []; updated_at = t } else row)
            tables.namespaces;
    })

  -- One transaction too.
  unfoldable pub reset_sync_state : Bytes → M X (Unit {0})
  reset_sync_state key_id = do
    t ← now e
    exec [] (key_id ∷ [])
    exec [] (key_id ∷ [])
    exec [] (key_id ∷ [])
    exec [] (key_id ∷ [])
    exec [] (key_id ∷ [])
    tables ← gets (λ s. s.tables)
    put_rows (record {
      items = select (λ row. not (bytes_eq row.key_id key_id)) tables.items;
      namespaces = select (λ row. not (bytes_eq row.key_id key_id)) tables.namespaces;
      identities =
          map
            (λ row.
              if bytes_eq row.key_id key_id
              then record row { default_namespace_id = []; updated_at = t }
              else row)
            tables.identities;
    })

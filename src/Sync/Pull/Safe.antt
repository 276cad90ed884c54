-- ===== src/Sync/Pull/Safe.antt =====
-- The pull phase keeps the stored items valid and never takes a version back.
use bitboxsync_client_go.Prelude.{ℕ, ◌≡◌, refl, List, [], ◌∷◌, Option, none, some, arith, All}
use bitboxsync_client_go.Prelude.Bytes.{Bytes, bytes_eq_iff}
use bitboxsync_client_go.Types.{ItemState, NamespaceState, IdentityState, Dict, get}
use bitboxsync_client_go.Api.{NamespaceSummary}
use bitboxsync_client_go.Client.Quiet.{get_namespace_items-IsQuiet, list_namespaces-IsQuiet}
use bitboxsync_client_go.Engine.State.{Engine}
use bitboxsync_client_go.Engine.Ensures.{
  Ensures, Ensures-bind, Ensures-pure, bind-quiet, bind-lift, bind-tables, call-IsQuiet,
  pure-IsQuiet, now-IsQuiet, emit-IsQuiet, refuse_if-IsQuiet, lift-IsQuiet, attempt-IsQuiet,
}
use bitboxsync_client_go.Sqlite.{query, list_namespace_items}
use bitboxsync_client_go.Sync.Pull.Index.{
  All-sort_by, All-select, get-IsOwn, add_active-AllOwn, index_local-AllOwn,
}
use bitboxsync_client_go.Sync.Safe.{Start, Safe, DatabaseLaws}
use bitboxsync_client_go.Sync.Safe.Keeps.{Keeps, quiet-Keeps, bind-Keeps, if-Keeps}
use bitboxsync_client_go.Sync.Auth.Safe.{
  access_token-IsQuiet, snapshot-IsQuiet, save_namespace-Keeps, save_identity_state-Keeps,
}
use bitboxsync_client_go.Sync.Auth.Safe.{list_namespaces-IsQuiet as stored_namespaces-IsQuiet}
use bitboxsync_client_go.Sync.Namespaces.Safe.{
  get_namespace_state-IsQuiet, or_new_namespace-IsQuiet, join_namespace-Keeps,
}
use bitboxsync_client_go.Sync.Scope.{NamespaceActiveScope}
use bitboxsync_client_go.Sync.Scope.Safe.{IsOwn, AllOwn, load_active_scope-AllOwn}
use bitboxsync_client_go.Sync.Items.Safe.{fetch_and_apply_remote_item-Safe}
use bitboxsync_client_go.Sync.Pull.{
  pull_item, pull_items, sync_namespace_items, advance_namespace, adopt_default, sync_each,
  sync_namespaces,
}

module _ {X : Type 0} (e : Engine X) (t₀ : Start) where
  list_namespace_items-IsOwn :
      (n : Bytes)
      → Ensures
          (Safe t₀)
          (list_namespace_items e e.key_id n)
          (λ items t. Safe t₀ t × All (IsOwn t₀.crypto e.key_id) items)
          (Safe t₀)
  unfolding list_namespace_items query
  list_namespace_items-IsOwn n =
      bind-quiet (call-IsQuiet _) (λ t p. p)
        λ _. bind-tables λ tables. Ensures-pure _ (λ t (p, same). (
          p,
          rw same (
              All-sort_by (IsOwn t₀.crypto e.key_id) _ _ (
                All-select t₀ e.key_id _ t.items
                  (λ item h. ground (arith, bytes_eq_iff item.key_id e.key_id)) p.valid)),
        ))

  module _ (laws : DatabaseLaws t₀ e.database) (same : t₀.crypto ≡ e.crypto) where
    pull_item-Keeps :
        (ns : NamespaceState) (inactive : List Bytes) (id : Bytes) (v : ℕ) (o : Option ItemState)
        → ((item : ItemState) → o ≡ some item → IsOwn t₀.crypto e.key_id item)
        → Keeps t₀ (pull_item e ns inactive id v o)
    unfolding pull_item
    pull_item-Keeps ns inactive id v none own =
        if-Keeps t₀ _ (quiet-Keeps t₀ (pure-IsQuiet tt)) (quiet-Keeps t₀ (emit-IsQuiet e _))
    pull_item-Keeps ns inactive id v (some item) own =
        if-Keeps t₀ _ (quiet-Keeps t₀ (pure-IsQuiet tt)) (
          let (valid, name, mine) = own item refl in
          fetch_and_apply_remote_item-Safe e t₀ laws ns item v valid name mine)

    pull_items-Keeps :
        (ns : NamespaceState) (by_id : Dict ItemState) (inactive : List Bytes) (remote : Dict ℕ)
        → AllOwn t₀.crypto e.key_id by_id
        → Keeps t₀ (pull_items e ns by_id inactive remote)
    unfolding pull_items
    pull_items-Keeps ns by_id inactive [] own = quiet-Keeps t₀ (pure-IsQuiet tt)
    pull_items-Keeps ns by_id inactive ((id, v) ∷ rest) own =
        bind-Keeps t₀
          (pull_item-Keeps ns inactive id v (get id by_id)
            (λ item h. get-IsOwn t₀.crypto e.key_id id by_id own h))
          λ _. pull_items-Keeps ns by_id inactive rest own

    -- syncNamespaceItems, whatever the server lists and answers.
    pub sync_namespace_items-Keeps :
        (ns : NamespaceState) (head : ℕ) (scope : NamespaceActiveScope)
        → AllOwn t₀.crypto e.key_id scope.active_items
        → Keeps t₀ (sync_namespace_items e ns head scope)
    unfolding sync_namespace_items
    sync_namespace_items-Keeps ns head scope active =
        bind-Keeps t₀ (quiet-Keeps t₀ access_token-IsQuiet) λ token.
          bind-Keeps t₀ (quiet-Keeps t₀ (get_namespace_items-IsQuiet e _ _)) λ resp.
            bind-Keeps t₀ (quiet-Keeps t₀ (refuse_if-IsQuiet _ _)) λ _.
              bind-Keeps t₀ (quiet-Keeps t₀ (refuse_if-IsQuiet _ _)) λ _.
                Ensures-bind (list_namespace_items-IsOwn ns.namespace_id) λ local_items.
                  bind-lift (λ t p. p.0)
                    λ index found. record {
                      at = λ s (p, own).
                          (bind-Keeps t₀
                              (pull_items-Keeps ns _ index.1 resp.items (
                                add_active-AllOwn t₀.crypto e.key_id scope.active_items index.0
                                  active
                                  (index_local-AllOwn t₀.crypto e.key_id scope resp.items
                                    local_items [] [] own tt found)))
                              λ _. bind-Keeps t₀ (quiet-Keeps t₀ (now-IsQuiet e)) λ t.
                                bind-Keeps t₀ (save_namespace-Keeps e t₀ _)
                                  λ _. quiet-Keeps t₀ (emit-IsQuiet e _)).at
                            s p;
                    }

    advance_namespace-Keeps :
        (id : Bytes) (ns : NamespaceState) (head : ℕ) (scope : NamespaceActiveScope)
        → AllOwn t₀.crypto e.key_id scope.active_items
        → Keeps t₀ (advance_namespace e id ns head scope)
    unfolding advance_namespace
    advance_namespace-Keeps id ns head scope active =
        if-Keeps t₀ _
          (bind-Keeps t₀ (sync_namespace_items-Keeps ns head scope active) λ _.
            bind-Keeps t₀ (quiet-Keeps t₀ (get_namespace_state-IsQuiet e id))
              λ _. quiet-Keeps t₀ (pure-IsQuiet tt))
          (bind-Keeps t₀ (quiet-Keeps t₀ (now-IsQuiet e)) λ t. save_namespace-Keeps e t₀ _)

    adopt_default-Keeps :
        (remote : NamespaceSummary) (state : IdentityState)
        → Keeps t₀ (adopt_default e remote state)
    unfolding adopt_default
    adopt_default-Keeps remote state =
        if-Keeps t₀ _
          (bind-Keeps t₀ (quiet-Keeps t₀ (now-IsQuiet e)) λ t.
            bind-Keeps t₀ (save_identity_state-Keeps e t₀ _) λ _. quiet-Keeps t₀ (pure-IsQuiet _))
          (quiet-Keeps t₀ (pure-IsQuiet state))

    sync_each-Keeps :
        (remote : List NamespaceSummary) (state : IdentityState)
        → Keeps t₀ (sync_each e remote state)
    unfolding sync_each
    sync_each-Keeps [] state = quiet-Keeps t₀ (pure-IsQuiet tt)
    sync_each-Keeps (remote ∷ rest) state =
        bind-Keeps t₀ (quiet-Keeps t₀ (attempt-IsQuiet (get_namespace_state-IsQuiet e _))) λ found.
          bind-Keeps t₀ (quiet-Keeps t₀ (or_new_namespace-IsQuiet e _ _ _)) λ stored.
            bind-Keeps t₀ (quiet-Keeps t₀ (refuse_if-IsQuiet _ _)) λ _.
              bind-Keeps t₀
                (if-Keeps t₀ _ (join_namespace-Keeps e t₀ _ _) (quiet-Keeps t₀ (pure-IsQuiet _)))
                λ local. Ensures-bind (load_active_scope-AllOwn e (Safe t₀) local) λ scope. record {
                  at = λ s (p, active).
                      (bind-Keeps t₀
                          (advance_namespace-Keeps remote.namespace_id local _ scope
                            (rw same active))
                          λ _.
                            bind-Keeps t₀ (adopt_default-Keeps remote state)
                              λ state'. sync_each-Keeps rest state').at
                        s p;
                }

    -- syncNamespaces, whatever the server lists and answers, on success and on every error: stored
    -- items stay valid and no stored version goes back.
    pub sync_namespaces-Keeps : Keeps t₀ (sync_namespaces e)
    unfolding sync_namespaces
    sync_namespaces-Keeps = bind-Keeps t₀ (quiet-Keeps t₀ snapshot-IsQuiet) λ state.
        bind-Keeps t₀ (quiet-Keeps t₀ (list_namespaces-IsQuiet e _)) λ remote.
          bind-Keeps t₀ (quiet-Keeps t₀ (stored_namespaces-IsQuiet e _)) λ local.
            bind-Keeps t₀ (quiet-Keeps t₀ (lift-IsQuiet _)) λ _. sync_each-Keeps remote state

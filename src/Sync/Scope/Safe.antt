-- ===== src/Sync/Scope/Safe.antt =====
-- The active scope is loaded without touching a table, and its items are new ones of this engine.
use bitboxsync_client_go.Prelude.{◌≡◌, refl, List, [], ◌∷◌, arith}
use bitboxsync_client_go.Prelude.Bytes.{Bytes}
use bitboxsync_client_go.Types.{NamespaceState, ItemState, Dict, new_item}
use bitboxsync_client_go.Result
use bitboxsync_client_go.Result.{Result, ok, err}
use bitboxsync_client_go.Keys.{compose_logical_key}
use bitboxsync_client_go.Protocol.Crypto.{Crypto}
use bitboxsync_client_go.Protocol.Hex.{encode_to_string}
use bitboxsync_client_go.Protocol.Item.{item_id, namespace_map_key}
use bitboxsync_client_go.Engine.State.{Engine, RegisteredCollection, Tables}
use bitboxsync_client_go.Engine.Ensures.{
  Ensures, IsQuiet, Ensures-bind, Ensures-pure, bind-quiet, bind-lift, quiet_rules, call-IsQuiet,
}
use bitboxsync_client_go.Sync.Safe.{IsValid, IsNamed}
use bitboxsync_client_go.Sync.Values.{collection_registrations, registered_collections}
use bitboxsync_client_go.Sync.Scope.{
  NamespaceActiveScope, scope_keys, scope_collections, load_active_scope,
}

-- the item is valid, named and has this key ID
abbrev pub IsOwn : Crypto → Bytes → ItemState → Type 0
IsOwn c k item = IsValid item × IsNamed c item × (item.key_id ≡ k)

abbrev pub AllOwn : Crypto → Bytes → Dict ItemState → Type 0
AllOwn c k [] = Unit
AllOwn c k ((id, item) ∷ rest) = IsOwn c k item × AllOwn c k rest

-- an item ID is a coded HMAC of the logical key
pub item_id-IsNamed :
    (c : Crypto) (k n collection key dek : Bytes) {id : Bytes}
    → item_id c dek (compose_logical_key collection key) ≡ ok id
    → IsNamed c (new_item k n collection key id)
unfolding item_id
item_id-IsNamed c k n collection key dek {id} h = under (namespace_map_key c dek) h
  where
    under :
        (r : Result Bytes)
        → Result.◌>>=◌ r (λ map_key.
          ok (encode_to_string (c.hmac_sha256 map_key (compose_logical_key collection key))))
          ≡ ok id
        → IsNamed c (new_item k n collection key id)
    under (ok map_key) g = record { map_key = map_key; named = cc g }
    under (err x) g = absurd (cc)

module _ {X : Type 0} (e : Engine X) (P : Tables → Type 0) where
  scope_keys-AllOwn :
      (ns : NamespaceState) (collection : Bytes) (keys : List Bytes) (scope : NamespaceActiveScope)
      → AllOwn e.crypto e.key_id scope.active_items
      → Ensures P
          (scope_keys e ns collection keys scope)
          (λ r t. P t × AllOwn e.crypto e.key_id r.active_items)
          P
  unfolding scope_keys
  scope_keys-AllOwn ns collection [] scope own = Ensures-pure scope (λ t p. (p, own))
  scope_keys-AllOwn ns collection (key ∷ keys) scope own =
      bind-lift (λ t p. p)
        λ id named.
          scope_keys-AllOwn ns collection keys _
            ((ground arith, item_id-IsNamed e.crypto _ _ collection key ns.dek named, refl), own)

  scope_collections-AllOwn :
      (ns : NamespaceState) (cs : List (RegisteredCollection X)) (scope : NamespaceActiveScope)
      → AllOwn e.crypto e.key_id scope.active_items
      → Ensures P
          (scope_collections e ns cs scope)
          (λ r t. P t × AllOwn e.crypto e.key_id r.active_items)
          P
  unfolding scope_collections
  scope_collections-AllOwn ns [] scope own = Ensures-pure scope (λ t p. (p, own))
  scope_collections-AllOwn ns (c ∷ cs) scope own =
      bind-quiet (call-IsQuiet _) (λ t p. p)
        λ keys. Ensures-bind (scope_keys-AllOwn ns c.name _ _ own) λ scope'. record {
          at = λ s (p, own'). (scope_collections-AllOwn ns cs scope' own').at s p;
        }

  registrations-IsQuiet : (n : Bytes) → IsQuiet {X = X} (collection_registrations n)
  unfolding collection_registrations registered_collections
  registrations-IsQuiet n = search quiet_rules

  -- loadActiveScope: the items of the scope are valid and this engine's.
  pub load_active_scope-AllOwn :
      (ns : NamespaceState)
      → Ensures P (load_active_scope e ns) (λ r t. P t × AllOwn e.crypto e.key_id r.active_items) P
  unfolding load_active_scope
  load_active_scope-AllOwn ns =
      bind-quiet (registrations-IsQuiet _) (λ t p. p)
        λ registered.
          Ensures-bind (scope_collections-AllOwn ns registered _ tt)
            λ scope. Ensures-pure _ (λ t p. p)

-- ===== src/Sqlite/Rows.antt =====
-- storage/sqlite/store.go: the schema's keys, and what the statements do to a list of rows.
use bitboxsync_client_go.Prelude.{
  Bool, true, false, ◌&&◌, ◌||◌, not, List, [], ◌∷◌, Option, none, some, ltb, ◌==◌, if◌then◌else◌,
}
use bitboxsync_client_go.Prelude.Bytes.{Bytes, bytes_eq}
use bitboxsync_client_go.Types.{IdentityState, NamespaceState, ItemState}

module _ {A : Type 0} where
  -- SELECT of at most one row
  unfoldable pub find : (A → Bool) → List A → Option A
  find p [] = none
  find p (x ∷ xs) = if p x then some x else find p xs

  unfoldable pub select : (A → Bool) → List A → List A
  select p [] = []
  select p (x ∷ xs) = let rest = select p xs in if p x then x ∷ rest else rest

  -- INSERT … ON CONFLICT(key) DO UPDATE of all columns that are not in the key
  unfoldable pub upsert : (A → A → Bool) → A → List A → List A
  upsert same row [] = row ∷ []
  upsert same row (x ∷ xs) = if same row x then row ∷ xs else x ∷ upsert same row xs

  unfoldable pub insert : (A → A → Bool) → A → List A → List A
  insert before x [] = x ∷ []
  insert before x (y ∷ ys) = if before y x then y ∷ insert before x ys else x ∷ y ∷ ys

  -- ORDER BY, and a stable sort: `before` is strict
  unfoldable pub sort_by : (A → A → Bool) → List A → List A
  unfolding insert
  sort_by before [] = []
  sort_by before (x ∷ xs) = insert before x (sort_by before xs)

-- byte-wise comparison of texts
unfoldable pub bytes_ltb : Bytes → Bytes → Bool
bytes_ltb [] [] = false
bytes_ltb [] (y ∷ ys) = true
bytes_ltb (x ∷ xs) [] = false
bytes_ltb (x ∷ xs) (y ∷ ys) = if x == y then bytes_ltb xs ys else ltb x y

-- PRIMARY KEY (key_id, namespace_id, item_id)
unfoldable pub same_item : ItemState → ItemState → Bool
same_item a b =
    bytes_eq a.key_id b.key_id
    && (bytes_eq a.namespace_id b.namespace_id && bytes_eq a.item_id b.item_id)

-- WHERE key_id = ? AND namespace_id = ? AND item_id = ?
unfoldable pub has_item_id : Bytes → Bytes → Bytes → ItemState → Bool
has_item_id key_id namespace_id item_id row =
    bytes_eq row.key_id key_id
    && (bytes_eq row.namespace_id namespace_id && bytes_eq row.item_id item_id)

-- WHERE key_id = ? AND namespace_id = ? AND collection_name = ? AND item_key = ?
unfoldable pub has_logical_key : Bytes → Bytes → Bytes → Bytes → ItemState → Bool
has_logical_key key_id namespace_id collection key row =
    bytes_eq row.key_id key_id
    && (bytes_eq row.namespace_id namespace_id
        && (bytes_eq row.collection collection && bytes_eq row.key key))

-- idx_items_logical_key: UNIQUE (key_id, namespace_id, collection_name, item_key)
unfoldable pub same_logical_key : ItemState → ItemState → Bool
same_logical_key a b =
    bytes_eq a.key_id b.key_id
    && (bytes_eq a.namespace_id b.namespace_id
        && (bytes_eq a.collection b.collection && bytes_eq a.key b.key))

-- another row has the logical key of this one
unfoldable pub breaks_logical_key : ItemState → List ItemState → Bool
unfolding same_item same_logical_key
breaks_logical_key row [] = false
breaks_logical_key row (x ∷ xs) =
    (same_logical_key row x && not (same_item row x)) || breaks_logical_key row xs

-- PRIMARY KEY (key_id, namespace_id)
unfoldable pub same_namespace : NamespaceState → NamespaceState → Bool
same_namespace a b = bytes_eq a.key_id b.key_id && bytes_eq a.namespace_id b.namespace_id

-- PRIMARY KEY (key_id)
unfoldable pub same_identity : IdentityState → IdentityState → Bool
same_identity a b = bytes_eq a.key_id b.key_id

-- ORDER BY updated_at, item_id
unfoldable pub is_before : ItemState → ItemState → Bool
unfolding bytes_ltb
is_before a b =
    ltb a.updated_at b.updated_at || (a.updated_at == b.updated_at && bytes_ltb a.item_id b.item_id)

-- ORDER BY updated_at, namespace_id
unfoldable pub namespace_is_before : NamespaceState → NamespaceState → Bool
unfolding bytes_ltb
namespace_is_before a b =
    ltb a.updated_at b.updated_at
    || (a.updated_at == b.updated_at && bytes_ltb a.namespace_id b.namespace_id)

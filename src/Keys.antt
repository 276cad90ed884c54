-- ===== src/Keys.antt =====
-- bitboxsync/engine_discovery.go: length-prefixed keys of collections, locks and items.
pub mod Injective
use bitboxsync_client_go.Prelude.{ℕ, List, [], ◌∷◌, ◌++◌, length}
use bitboxsync_client_go.Prelude.Bytes.{Bytes, put_uint64}

-- The loop over `parts`; `out` is what is appended so far.
append_key_parts : Bytes → List Bytes → Bytes
append_key_parts out [] = out
append_key_parts out (part ∷ parts) =
    append_key_parts ((out ++ put_uint64 (length part)) ++ part) parts

unfoldable pub join_key_parts : List Bytes → Bytes
unfolding append_key_parts
join_key_parts parts = append_key_parts [] parts

unfoldable pub collection_registry_key : Bytes → Bytes → Bytes
collection_registry_key namespace_id collection = join_key_parts (namespace_id ∷ collection ∷ [])

unfoldable pub compose_logical_key : Bytes → Bytes → Bytes
compose_logical_key collection key = join_key_parts (collection ∷ key ∷ [])

-- The key under which `withLogicalKeyLock` finds its mutex.
unfoldable pub logical_lock_key : Bytes → Bytes → Bytes → Bytes
logical_lock_key namespace_id collection key = join_key_parts (namespace_id ∷ collection ∷ key ∷ [])

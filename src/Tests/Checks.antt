-- ===== src/Tests/Checks.antt =====
-- The codings, the checks and the store's transactions at concrete inputs.
use bitboxsync_client_go.Prelude.{
  ℕ, ◌<◌, ◌||◌, ◌&&◌, ◌⊎◌, if◌then◌else◌, true, false, List, [], ◌∷◌, some, ◌≡◌, ◌↔◌, refl, All,
  arith, map, length, ◌==◌,
}
use bitboxsync_client_go.Prelude.Bytes.{Bytes, bytes_eq, codes, put_uint64}
use bitboxsync_client_go.Result.{ok, err, rollback, not_found, refuse_if}
use bitboxsync_client_go.Types.{Dict, get, contains}
use bitboxsync_client_go.Api.{NamespaceSummary}
use bitboxsync_client_go.Protocol.Hex.{
  encode_to_string, decode_string, to_lower, decode_lower_hex_exact, decode_hex_exact,
  from_hex_digit,
}
use bitboxsync_client_go.Protocol.Hex.Decode.{decode_lower_hex_exact-encode}
use bitboxsync_client_go.Protocol.Item.{
  build_item_aad_from_bytes, build_item_aad, encrypt_item, prepare_item, namespace_blob_key,
  verify_aad,
}
use bitboxsync_client_go.Protocol.Item.Binding.{verify_aad_inj}
use bitboxsync_client_go.Engine.Ensures.{Ensures}
use bitboxsync_client_go.Sqlite.{forget_identity_secrets, reset_sync_state}
use bitboxsync_client_go.Sqlite.Forget.{
  Forgotten, IsReset, forget_identity_secrets-Forgotten, reset_sync_state-IsReset,
}
use bitboxsync_client_go.Sync.Items.{decrypt_remote_item}
use bitboxsync_client_go.Sync.Items.RoundTrip.{decrypt_remote_item-encrypt_item}
use bitboxsync_client_go.Sync.Run.{any_ahead, compare_head}
use bitboxsync_client_go.Sync.Run.Watch.{IsKnown, any_ahead_iff, any_ahead-rollback}
use bitboxsync_client_go.Sync.Namespaces.{validate_namespace_kind}
use bitboxsync_client_go.Sync.Pull.{check_namespaces, check_summaries, check_present}
use bitboxsync_client_go.Sync.Pull.Rollback.{check_namespaces-present}
use bitboxsync_client_go.Backend.{memory_get, memory_set_if_current, still_current}
use bitboxsync_client_go.Backend.Replace.{memory_get-set_if_current, memory_set_if_current-read}
use bitboxsync_client_go.Sqlite.{save_item, get_item_by_id}
use bitboxsync_client_go.Sqlite.Rows.{find, has_item_id}
use mathlib.Core.List.{Mem}
use bitboxsync_client_go.Sync.Safe.Refine.{ItemMap, Saved, Represents, store_refines_map}
use bitboxsync_client_go.Tests.World.{
  clean_item, plain_crypto, plain_laws, small_engine, small_namespace, namespace_hex, item_hex,
  one_item, twenty_four, thirty_two, sixteen,
}

abbrev raw : Bytes
raw = 10 ∷ 255 ∷ []

abbrev version : ℕ
version = 5

abbrev text : Bytes
text = codes "0aff"

decode_lower_hex_exact-encode_example : (encode_to_string raw ≡ text) × (length raw ≡ 2)
unfolding decode_lower_hex_exact decode_hex_exact decode_string from_hex_digit to_lower bytes_eq
decode_lower_hex_exact-encode_example =
    decode_lower_hex_exact-encode "text" text 2 {raw = 10 ∷ 255 ∷ []} refl

abbrev aad : Bytes
aad = build_item_aad_from_bytes (sixteen 17) (thirty_two 17) 5

verified : verify_aad namespace_hex item_hex 5 aad ≡ ok tt
unfolding verify_aad build_item_aad build_item_aad_from_bytes decode_lower_hex_exact
    decode_hex_exact decode_string from_hex_digit to_lower bytes_eq put_uint64
verified = refl

verify_aad_inj_example :
    (namespace_hex ≡ namespace_hex) × (item_hex ≡ item_hex) × (version ≡ version)
verify_aad_inj_example =
    verify_aad_inj namespace_hex item_hex namespace_hex item_hex aad 5 5 (omega arith) (omega arith)
      verified verified

encrypted :
    encrypt_item plain_crypto namespace_hex item_hex 5 (thirty_two 3) (twenty_four 0) (66 ∷ [])
    ≡ ok (aad, 66 ∷ [])
unfolding encrypt_item prepare_item namespace_blob_key build_item_aad build_item_aad_from_bytes
    decode_lower_hex_exact decode_hex_exact decode_string from_hex_digit to_lower bytes_eq
    put_uint64
encrypted = refl

decrypt_remote_item-encrypt_item_example :
    decrypt_remote_item plain_crypto small_namespace item_hex (record {
      namespace_id = namespace_hex;
      item_id = item_hex;
      version = 5;
      nonce = twenty_four 0;
      aad = aad;
      ciphertext = 66 ∷ [];
    })
    ≡ ok (66 ∷ [])
decrypt_remote_item-encrypt_item_example =
    decrypt_remote_item-encrypt_item plain_crypto plain_laws small_namespace item_hex
      (twenty_four 0) (66 ∷ []) aad (66 ∷ []) 5 refl encrypted

forget_identity_secrets-Forgotten_example :
    Ensures
      (λ t. t ≡ one_item)
      (forget_identity_secrets small_engine (5 ∷ []))
      (λ _. Forgotten (5 ∷ []) one_item)
      (λ t. t ≡ one_item)
forget_identity_secrets-Forgotten_example =
    forget_identity_secrets-Forgotten small_engine one_item (5 ∷ [])

reset_sync_state-IsReset_example :
    Ensures
      (λ t. t ≡ one_item)
      (reset_sync_state small_engine (5 ∷ []))
      (λ _. IsReset (5 ∷ []) one_item)
      (λ t. t ≡ one_item)
reset_sync_state-IsReset_example = reset_sync_state-IsReset small_engine one_item (5 ∷ [])

abbrev listed : List NamespaceSummary
listed = record { namespace_id = namespace_hex; kind = codes "default"; namespace_head = 3 } ∷ []

any_ahead_iff_example :
    (any_ahead ((namespace_hex, 3) ∷ []) listed ≡ ok false)
    ↔ All (IsKnown ((namespace_hex, 3) ∷ [])) listed
any_ahead_iff_example = any_ahead_iff ((namespace_hex, 3) ∷ []) listed

any_ahead-rollback_example :
    (rollback ≡ rollback)
    × ((n : NamespaceSummary) × (old : ℕ) × Mem n listed
        × (get n.namespace_id ((namespace_hex, 4) ∷ []) ≡ some old)
        × (n.namespace_head < old))
unfolding any_ahead compare_head get bytes_eq
any_ahead-rollback_example = any_ahead-rollback ((namespace_hex, 4) ∷ []) listed rollback refl

check_namespaces-present_example :
    All
      (λ n. contains n.namespace_id (map (λ r. r.namespace_id) listed) ≡ true)
      (small_namespace ∷ [])
    × ((length namespace_hex == 0 || contains namespace_hex (map (λ r. r.namespace_id) listed))
        ≡ true)
unfolding check_namespaces check_summaries check_present validate_namespace_kind contains bytes_eq
    refuse_if
check_namespaces-present_example =
    check_namespaces-present namespace_hex listed (small_namespace ∷ []) refl

abbrev stored_value : Dict Bytes
stored_value = (codes "k", 1 ∷ []) ∷ []

memory_get-set_if_current_example :
    memory_get
      (memory_set_if_current bytes_eq stored_value (codes "k") (1 ∷ []) true (2 ∷ [])).1
      (codes "k")
    ≡ (if (memory_set_if_current bytes_eq stored_value (codes "k") (1 ∷ []) true (2 ∷ [])).0
          && bytes_eq (codes "k") (codes "k")
        then ok (2 ∷ [])
        else memory_get stored_value (codes "k"))
memory_get-set_if_current_example =
    memory_get-set_if_current bytes_eq stored_value (codes "k") (codes "k") (1 ∷ []) true (2 ∷ [])

memory_set_if_current-read_example :
    ((true ≡ false) × (memory_get stored_value (codes "k") ≡ err not_found))
    ⊎ ((existing : Bytes) × (true ≡ true)
        × (memory_get stored_value (codes "k") ≡ ok existing)
        × (bytes_eq existing (1 ∷ []) ≡ true))
unfolding memory_set_if_current still_current get bytes_eq
memory_set_if_current-read_example =
    memory_set_if_current-read bytes_eq stored_value (codes "k") (1 ∷ []) true (2 ∷ []) refl

-- the map of one item
abbrev small_map : ItemMap
small_map = λ k n i. find (has_item_id k n i) one_item.items

store_refines_map_example :
    Ensures
      (Represents small_map)
      (save_item small_engine clean_item)
      (λ _. Saved small_engine small_map clean_item)
      (Represents small_map)
    × Ensures
        (Represents small_map)
        (get_item_by_id small_engine (5 ∷ []) namespace_hex item_hex)
        (λ found t.
          Represents small_map t × (small_map (5 ∷ []) namespace_hex item_hex ≡ some found))
        (Represents small_map)
store_refines_map_example =
    store_refines_map small_engine small_map clean_item (5 ∷ []) namespace_hex item_hex

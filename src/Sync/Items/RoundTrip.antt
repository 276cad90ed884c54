-- ===== src/Sync/Items/RoundTrip.antt =====
-- What one client encrypts for an upload is what another decrypts after a download.
use bitboxsync_client_go.Prelude.{ℕ, true, String, ◌≡◌, refl, arith, length, ==_iff}
use bitboxsync_client_go.Prelude.Bytes.{Bytes, bytes_eq, bytes_eq_iff}
use bitboxsync_client_go.Result.{Result, ok, err, refuse_if, ◌>>=◌}
use bitboxsync_client_go.Types.{NamespaceState}
use bitboxsync_client_go.Protocol.Crypto.{Crypto, CryptoLaws}
use bitboxsync_client_go.Protocol.Item.{
  build_item_aad, verify_aad, namespace_blob_key, encrypt_item, prepare_item, seal_item,
  decrypt_item, decode_base64, decode_base64_exact, item_nonce_length,
}
use bitboxsync_client_go.Sync.Items.{decrypt_remote_item}

bytes_eq_self : (xs : Bytes) → bytes_eq xs xs ≡ true
bytes_eq_self xs = (bytes_eq_iff xs xs).1 refl

module _ (c : Crypto) (laws : CryptoLaws c) where
  decode_base64-encode :
      (name : String) (raw : Bytes) → decode_base64 c name (c.encode_base64 raw) ≡ ok raw
  unfolding decode_base64
  decode_base64-encode name raw =
      ground (arith, laws.decode-encode raw, bytes_eq_self (c.encode_base64 raw))

  decode_base64_exact-encode :
      (name : String) (raw : Bytes) (size : ℕ)
      → length raw ≡ size
      → decode_base64_exact c name (c.encode_base64 raw) size ≡ ok raw
  unfolding decode_base64_exact
  decode_base64_exact-encode name raw size h =
      rw (decode_base64-encode name raw, (==_iff (length raw) size).1 h) refl

  -- the parts of an encrypted item
  encrypt_item-parts :
      (n i dek nonce value : Bytes) (v : ℕ) {aad ciphertext : Bytes}
      → encrypt_item c n i v dek nonce value ≡ ok (aad, ciphertext)
      → (key : Bytes) × (build_item_aad n i v ≡ ok aad)
        × (namespace_blob_key c dek ≡ ok key)
        × (c.seal key nonce value aad ≡ ciphertext)
  unfolding encrypt_item prepare_item
  encrypt_item-parts n i dek nonce value v {aad} {ciphertext} h =
      step (build_item_aad n i v) (namespace_blob_key c dek) refl refl h
    where
      sealed_with : Bytes × Bytes → Result (Bytes × Bytes)
      sealed_with prepared = ok (seal_item c prepared nonce value)

      step :
          (a b : Result Bytes)
          → build_item_aad n i v ≡ a
          → namespace_blob_key c dek ≡ b
          → (a >>= λ x. b >>= λ key. ok (x, key)) >>= sealed_with ≡ ok (aad, ciphertext)
          → (key : Bytes) × (build_item_aad n i v ≡ ok aad)
            × (namespace_blob_key c dek ≡ ok key)
            × (c.seal key nonce value aad ≡ ciphertext)
      step (err x) b ea eb g = absurd (cc g)
      step (ok a) (err x) ea eb g = absurd (cc g)
      step (ok a) (ok key) ea eb g = (key, cc (ea, g), eb, cc g)

  -- An item that EncryptItem made under a nonce of the right length, coded as an upload codes it
  -- and answered with the version it was made for, is decrypted by decryptRemoteItem to its value.
  pub decrypt_remote_item-encrypt_item :
      (ns : NamespaceState) (item_id nonce value aad ciphertext : Bytes) (v : ℕ)
      → length nonce ≡ item_nonce_length
      → encrypt_item c ns.namespace_id item_id v ns.dek nonce value ≡ ok (aad, ciphertext)
      → decrypt_remote_item c ns item_id (record {
        namespace_id = ns.namespace_id;
        item_id = item_id;
        version = v;
        nonce = c.encode_base64 nonce;
        aad = c.encode_base64 aad;
        ciphertext = c.encode_base64 ciphertext;
      })
        ≡ ok value
  unfolding decrypt_remote_item verify_aad decrypt_item refuse_if
  decrypt_remote_item-encrypt_item ns item_id nonce value aad ciphertext v size h =
      let (key, built, keyed, sealed) =
        encrypt_item-parts ns.namespace_id item_id ns.dek nonce value v h in
      rw
        (
          decode_base64_exact-encode "nonce" nonce item_nonce_length size,
          decode_base64-encode "aad" aad,
          decode_base64-encode "ciphertext" ciphertext,
          built,
          bytes_eq_self aad,
          (==_iff (length nonce) item_nonce_length).1 size,
          keyed,
          ← sealed,
          laws.unseal-seal key nonce value aad,
        )
        refl

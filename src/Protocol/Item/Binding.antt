-- ===== src/Protocol/Item/Binding.antt =====
-- Associated data belong to one namespace, one item and one version.
use bitboxsync_client_go.Prelude.{
  ℕ, ◌<◌, ◌^◌, not, ◌++◌, ◌≡◌, refl, arith, length, append-cancel, Bool-cases, inl, inr,
}
use bitboxsync_client_go.Prelude.Bytes.{Bytes, bytes_eq, bytes_eq_iff, put_uint64, put_uint64_inj}
use bitboxsync_client_go.Result.{Result, ok, err, aad_mismatch, refuse_if, ◌>>=◌}
use bitboxsync_client_go.Protocol.Hex.{
  decode_lower_hex_exact, encode_to_string, namespace_id_length, item_id_length,
}
use bitboxsync_client_go.Protocol.Hex.Decode.{decode_lower_hex_exact-encode}
use bitboxsync_client_go.Protocol.Item.{
  item_aad_prefix, build_item_aad_from_bytes, build_item_aad, verify_aad,
}

aad_inj :
    (n i n' i' : Bytes) (v v' : ℕ)
    → length n ≡ length n'
    → length i ≡ length i'
    → v < 2 ^ 64
    → v' < 2 ^ 64
    → build_item_aad_from_bytes n i v ≡ build_item_aad_from_bytes n' i' v'
    → (n ≡ n') × (i ≡ i') × (v ≡ v')
unfolding build_item_aad_from_bytes
aad_inj n i n' i' v v' ln li hv hv' h =
    let (_, tagged) = append-cancel item_aad_prefix item_aad_prefix refl h in
    let t : n ++ (i ++ put_uint64 v) ≡ n' ++ (i' ++ put_uint64 v') = cc tagged in
    let (a, rest) = append-cancel n n' ln t in
    let (b, last) = append-cancel i i' li rest in (a, b, put_uint64_inj hv hv' last)

-- what BuildItemAAD returns is made of the bytes that the two identifiers spell
build_item_aad-parts :
    (n i : Bytes) (v : ℕ) {aad : Bytes}
    → build_item_aad n i v ≡ ok aad
    → (raw : Bytes) × (raw' : Bytes) × (encode_to_string raw ≡ n)
      × (length raw ≡ namespace_id_length)
      × (encode_to_string raw' ≡ i)
      × (length raw' ≡ item_id_length)
      × (build_item_aad_from_bytes raw raw' v ≡ aad)
unfolding build_item_aad
build_item_aad-parts n i v {aad} h =
    step (decode_lower_hex_exact "namespaceId" n namespace_id_length)
      (decode_lower_hex_exact "itemId" i item_id_length) refl refl h
  where
    step :
        (a b : Result Bytes)
        → decode_lower_hex_exact "namespaceId" n namespace_id_length ≡ a
        → decode_lower_hex_exact "itemId" i item_id_length ≡ b
        → a >>= (λ raw. b >>= λ raw'. ok (build_item_aad_from_bytes raw raw' v)) ≡ ok aad
        → (raw : Bytes) × (raw' : Bytes) × (encode_to_string raw ≡ n)
          × (length raw ≡ namespace_id_length)
          × (encode_to_string raw' ≡ i)
          × (length raw' ≡ item_id_length)
          × (build_item_aad_from_bytes raw raw' v ≡ aad)
    step (err x) b ea eb g = absurd (cc g)
    step (ok raw) (err x) ea eb g = absurd (cc g)
    step (ok raw) (ok raw') ea eb g =
        let (sn, ln) = decode_lower_hex_exact-encode "namespaceId" n namespace_id_length ea in
        let (si, li) = decode_lower_hex_exact-encode "itemId" i item_id_length eb in
        (raw, raw', sn, ln, si, li, cc g)

verify_aad-build :
    (n i aad : Bytes) (v : ℕ) → verify_aad n i v aad ≡ ok tt → build_item_aad n i v ≡ ok aad
unfolding verify_aad refuse_if
verify_aad-build n i aad v h = step (build_item_aad n i v) h
  where
    step :
        (r : Result Bytes)
        → r >>= (λ expected. refuse_if (not (bytes_eq expected aad)) aad_mismatch) ≡ ok tt
        → r ≡ ok aad
    step (err x) g = absurd (cc g)
    step (ok expected) g = elim (Bool-cases (bytes_eq expected aad)) [
      | inl same ↦ cc ((bytes_eq_iff expected aad).0 same)
      | inr other' ↦ absurd (ground arith)
    ]

-- VerifyAAD accepts associated data for one namespace, one item and one version only, for
-- versions that are uint64.
pub verify_aad_inj :
    (n i n' i' aad : Bytes) (v v' : ℕ)
    → v < 2 ^ 64
    → v' < 2 ^ 64
    → verify_aad n i v aad ≡ ok tt
    → verify_aad n' i' v' aad ≡ ok tt
    → (n ≡ n') × (i ≡ i') × (v ≡ v')
verify_aad_inj n i n' i' aad v v' hv hv' h h' =
    let (a, b, sa, la, sb, lb, e) = build_item_aad-parts n i v (verify_aad-build n i aad v h) in
    let (a', b', sa', la', sb', lb', e') =
      build_item_aad-parts n' i' v' (verify_aad-build n' i' aad v' h') in
    let (p, q, r) = aad_inj a b a' b' v v' (cc (la, la')) (cc (lb, lb')) hv hv' (cc (e, e')) in
    (cc (p, sa, sa'), cc (q, sb, sb'), r)

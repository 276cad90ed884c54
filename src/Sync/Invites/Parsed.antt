-- ===== src/Sync/Invites/Parsed.antt =====
-- bitboxsync/namespace_invites.go: what a join request that is parsed spells out.
use bitboxsync_client_go.Prelude.{
  ℕ, not, String, some, length, ◌==◌, ◌≡◌, refl, sym, ◌∙◌, Bool-cases, Option-cases, inl, inr,
  arith,
}
use bitboxsync_client_go.Prelude.Bytes.{Bytes, bytes_eq, bytes_eq_iff}
use bitboxsync_client_go.Prelude.Int.{pos, ltz, eqz, to_uint64}
use bitboxsync_client_go.Result.{Result, ok}
use bitboxsync_client_go.Result.Steps.{bind_ok, refuse_ok, same_ok, same_passed, ok_inj}
use bitboxsync_client_go.Api.Invites.{NamespaceJoinRequest}
use bitboxsync_client_go.Protocol.Crypto.{Crypto}
use bitboxsync_client_go.Protocol.Url.{UrlParser}
use bitboxsync_client_go.Protocol.Hex.{
  decode_lower_hex_exact, encode_to_string, namespace_id_length, invite_id_length, key_id_length,
}
use bitboxsync_client_go.Protocol.Hex.Injective.{encode_to_string_inj}
use bitboxsync_client_go.Protocol.Hex.Decode.{decode_lower_hex_exact-encode}
use bitboxsync_client_go.Protocol.Intent.{join_request_payload, identity_kind_keystore}
use bitboxsync_client_go.Protocol.InviteToken.{namespace_join_request_version}
use bitboxsync_client_go.Protocol.Keys.{
  parse_ed25519_public_key_hex, parse_x25519_public_key_hex, verify_key_id_matches_auth_public_key,
  key_id_from_auth_public_key,
}
use bitboxsync_client_go.Protocol.Origin.{canonical_server_origin, server_origin_hash}
use bitboxsync_client_go.Protocol.Secrets.{
  contains, decode_base64url_exact, join_request_hash, invite_proof_length,
}
use bitboxsync_client_go.Sync.Invites.{ParsedNamespaceJoinRequest, parse_namespace_join_request}

module _ (c : Crypto) where
  pub decode_base64url_exact_ok :
      (name : String) (text : Bytes) (size : ℕ) {raw : Bytes}
      → decode_base64url_exact c name text size ≡ ok raw
      → (c.encode_base64url raw ≡ text) × (length raw ≡ size)
  unfolding decode_base64url_exact
  decode_base64url_exact_ok name text size {raw} h =
      let (plain, h1) = refuse_ok (contains b'=' text) _ _ h in
      elim (Option-cases (c.decode_base64url text)) [
        | inl bad ↦ absurd (ground arith)
        | inr (r, found) ↦ elim (Bool-cases (length r == size)) [
          | inr short ↦ absurd (ground arith)
          | inl fits ↦ elim (Bool-cases (bytes_eq (c.encode_base64url r) text)) [
            | inr loose ↦ absurd (ground arith)
            | inl same ↦
                let e : r ≡ raw = ground arith in
                rw (← e) ((bytes_eq_iff (c.encode_base64url r) text).0 same, ground arith)
          ]
        ]
      ]

  key_ok :
      (name : String) (text : Bytes) {key : Bytes}
      → parse_x25519_public_key_hex c name text ≡ ok key
      → (raw : Bytes) × (encode_to_string raw ≡ text) × (c.x25519_new_public_key raw ≡ some key)
  unfolding parse_x25519_public_key_hex
  key_ok name text {key} h =
      let (raw, d, h1) = bind_ok (decode_lower_hex_exact name text 32) _ h in
      let (spelled, size) = decode_lower_hex_exact-encode name text 32 d in
      elim (Option-cases (c.x25519_new_public_key raw)) [
        | inl bad ↦ absurd (ground arith)
        | inr (k, found) ↦ (raw, spelled, ground arith)
      ]

  key_id_ok :
      (key_id auth_key : Bytes)
      → verify_key_id_matches_auth_public_key c key_id auth_key ≡ ok tt
      → encode_to_string (c.sha256 auth_key) ≡ key_id
  unfolding verify_key_id_matches_auth_public_key key_id_from_auth_public_key
  key_id_ok key_id auth_key h =
      let (raw, d, h1) = bind_ok (decode_lower_hex_exact "keyId" key_id key_id_length) _ h in
      let (spelled, size) = decode_lower_hex_exact-encode "keyId" key_id key_id_length d in
      let e = same_passed (c.sha256 auth_key) raw _ h1 in rw (e) spelled

-- The request spells out the bytes of the payload: its namespace, invite, origin, keys and expiry.
pub record IsSpelled (u : UrlParser) (c : Crypto) (r : NamespaceJoinRequest)
    (p : ParsedNamespaceJoinRequest) : Type 0 where
  pub namespace_id : Bytes
  pub invite_id : Bytes
  pub wrap_key : Bytes
  pub namespace_hex : encode_to_string namespace_id ≡ r.namespace_id
  pub invite_hex : encode_to_string invite_id ≡ r.invite_id
  pub auth_key_hex : encode_to_string p.auth_public_key ≡ r.auth_public_key
  pub key_id_hex : encode_to_string (c.sha256 p.auth_public_key) ≡ r.key_id
  pub wrap_key_hex : encode_to_string wrap_key ≡ r.wrap_public_key
  pub wrap_key_parsed : c.x25519_new_public_key wrap_key ≡ some p.wrap_public_key
  pub signature_hex : encode_to_string p.signature ≡ r.signature
  pub proof_base64url : c.encode_base64url p.invite_proof ≡ r.invite_proof
  pub spells :
      join_request_payload identity_kind_keystore namespace_id invite_id
        (c.sha256 r.server_origin)
        (c.sha256 p.auth_public_key)
        p.auth_public_key
        p.wrap_public_key
        (to_uint64 r.expires_at)
      ≡ ok p.payload
  pub hashed : p.hash ≡ encode_to_string (c.sha256 p.payload)

payload_of :
    (n i a w : Bytes) (t : ℕ) {k k' o o' key key' : Bytes} {m : Result Bytes}
    → k ≡ k'
    → o ≡ o'
    → key ≡ key'
    → join_request_payload k n i o key a w t ≡ m
    → join_request_payload k' n i o' key' a w t ≡ m
payload_of n i a w t ek eo ekey h = rw (← ek, ← eo, ← ekey) h

module _ (u : UrlParser) (c : Crypto) (r : NamespaceJoinRequest) where
  origin_hash_ok :
      (origin : Bytes) {hash : Bytes}
      → server_origin_hash u c origin ≡ ok hash
      → c.sha256 origin ≡ hash
  unfolding server_origin_hash
  origin_hash_ok origin h =
      let (canonical, d, h1) = bind_ok (canonical_server_origin u origin) _ h in
      let (e, h2) = same_ok canonical origin _ _ h1 in ok_inj h2

  pub parse-IsSpelled :
      {p : ParsedNamespaceJoinRequest}
      → parse_namespace_join_request u c r ≡ ok p
      → IsSpelled u c r p
  unfolding parse_namespace_join_request parse_ed25519_public_key_hex join_request_hash
  parse-IsSpelled {p} h =
      let (v, h1) = refuse_ok (not (eqz r.version namespace_join_request_version)) _ _ h in
      let (k, h2) = same_ok r.kind identity_kind_keystore _ _ h1 in
      let (t, h3) = refuse_ok (ltz r.expires_at (pos 0)) _ _ h2 in
      let (n, dn, h4) =
        bind_ok (decode_lower_hex_exact _ r.namespace_id namespace_id_length) _ h3 in
      let (i, di, h5) = bind_ok (decode_lower_hex_exact _ r.invite_id invite_id_length) _ h4 in
      let (o, do', h6) = bind_ok (server_origin_hash u c r.server_origin) _ h5 in
      let (key, dk, h7) = bind_ok (decode_lower_hex_exact _ r.key_id key_id_length) _ h6 in
      let (a, da, h8) = bind_ok (decode_lower_hex_exact _ r.auth_public_key 32) _ h7 in
      let (w, dw, h9) = bind_ok (parse_x25519_public_key_hex c _ r.wrap_public_key) _ h8 in
      let (s, ds, h10) = bind_ok (decode_lower_hex_exact _ r.signature 64) _ h9 in
      let (q, dq, h11) =
        bind_ok (decode_base64url_exact c _ r.invite_proof invite_proof_length) _ h10 in
      let (done, dv, h12) = bind_ok (verify_key_id_matches_auth_public_key c r.key_id a) _ h11 in
      let (m, dm, h13) =
        bind_ok (join_request_payload r.kind n i o key a w (to_uint64 r.expires_at)) _ h12 in
      let (raw, wh, wp) = key_ok c _ r.wrap_public_key dw in
      let (nh, nl) = decode_lower_hex_exact-encode _ r.namespace_id namespace_id_length dn in
      let (ih, il) = decode_lower_hex_exact-encode _ r.invite_id invite_id_length di in
      let (kh, kl) = decode_lower_hex_exact-encode _ r.key_id key_id_length dk in
      let (ah, al) = decode_lower_hex_exact-encode _ r.auth_public_key 32 da in
      let (sh, sl) = decode_lower_hex_exact-encode _ r.signature 64 ds in
      let (qh, ql) = decode_base64url_exact_ok c _ r.invite_proof invite_proof_length dq in
      let kv = key_id_ok c r.key_id a dv in
      let key_is = encode_to_string_inj (c.sha256 a) key (kv ∙ sym kh) in
      let origin_is = origin_hash_ok r.server_origin do' in
      let made = ok_inj h13 in
      rw (← made) (record {
        namespace_id = n;
        invite_id = i;
        wrap_key = raw;
        namespace_hex = nh;
        invite_hex = ih;
        auth_key_hex = ah;
        key_id_hex = kv;
        wrap_key_hex = wh;
        wrap_key_parsed = wp;
        signature_hex = sh;
        proof_base64url = qh;
        spells = payload_of n i a w (to_uint64 r.expires_at) k (sym origin_is) (sym key_is) dm;
        hashed = refl;
      })

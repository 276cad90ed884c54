-- ===== src/Sync/Invites/Honest.antt =====
-- bitboxsync/namespace_invites.go and raw/identity.go: an honest join request is approved.
use bitboxsync_client_go.Prelude.{ℕ, String, ◌<◌, ◌≤◌, true, false, length, ◌==◌, ◌≡◌, refl, arith}
use bitboxsync_client_go.Prelude.Bytes.{Bytes, codes, bytes_eq, bytes_eq_iff}
use bitboxsync_client_go.Prelude.Int.{pos, ltz, lez, to_uint64}
use bitboxsync_client_go.Result.{ok}
use bitboxsync_client_go.Result.Steps.{bind_ok, ok_inj}
use bitboxsync_client_go.Api.Invites.{
  NamespaceInviteToken, NamespaceJoinRequest, NamespaceJoinRequestEntry,
}
use bitboxsync_client_go.Keystore.{
  DummyKeystore, new_dummy_keystore, keystore_key_id, sign_payload,
  sign_namespace_join_request_intent,
}
use bitboxsync_client_go.Protocol.Crypto.{Crypto}
use bitboxsync_client_go.Protocol.Signing.{SigningLaws}
use bitboxsync_client_go.Protocol.Url.{UrlParser}
use bitboxsync_client_go.Protocol.Hex.{
  decode_lower_hex_exact, encode_to_string, namespace_id_length, invite_id_length,
}
use bitboxsync_client_go.Protocol.Hex.Encode.{decode_lower_hex_exact-encoded}
use bitboxsync_client_go.Protocol.Intent.{join_request_payload, identity_kind_keystore}
use bitboxsync_client_go.Protocol.Keys.{
  parse_ed25519_public_key_hex, parse_x25519_public_key_hex, verify_key_id_matches_auth_public_key,
  key_id_from_auth_public_key, encode_ed25519_public_key, encode_x25519_public_key,
}
use bitboxsync_client_go.Protocol.Origin.{canonical_server_origin, server_origin_hash}
use bitboxsync_client_go.Protocol.Secrets.{
  decode_base64url_exact, verify_invite_proof, invite_proof, derive_invite_proof_key,
  derive_invite_server_secret, join_request_hash, invite_secret_length,
}
use bitboxsync_client_go.Sync.Invites.{
  unix, ParsedNamespaceJoinRequest, VerifiedJoinRequest, parse_namespace_join_request,
  check_coordinates, check_parsed, verify_join_request_for_approval,
}
use bitboxsync_client_go.Sync.Invites.Parsed.{decode_base64url_exact_ok}
use bitboxsync_client_go.Sync.Invites.Join.{join_request_of}

same : (xs : Bytes) → bytes_eq xs xs ≡ true
same xs = (bytes_eq_iff xs xs).1 refl

module _ (c : Crypto) (laws : SigningLaws c) where
  decode_url-encoded :
      (name : String) (raw : Bytes) (size : ℕ)
      → length raw ≡ size
      → decode_base64url_exact c name (c.encode_base64url raw) size ≡ ok raw
  unfolding decode_base64url_exact
  decode_url-encoded name raw size fits =
      let sized : (length raw == size) ≡ true = ground arith in
      rw
        (
          laws.encode_url_unpadded raw,
          laws.decode-encode_url raw,
          sized,
          same (c.encode_base64url raw),
        )
        refl

  proof_length :
      (secret payload proof : Bytes) → invite_proof c secret payload ≡ ok proof → length proof ≡ 32
  unfolding invite_proof
  proof_length secret payload proof h =
      let (key, hk, made) = bind_ok (derive_invite_proof_key c secret) _ h in
      let e = ok_inj made in rw (← e) (laws.hmac-IsSized key payload).0

  module _ (u : UrlParser) (label : Bytes) (invite : NamespaceInviteToken) (t : ℕ) where
    abbrev pub keystore : DummyKeystore
    keystore = new_dummy_keystore c label

    -- the request that SubmitJoinRequest sends with this keystore, for a payload and a secret
    abbrev pub request : Bytes → Bytes → NamespaceJoinRequest
    request payload proof =
        join_request_of invite invite.server_origin identity_kind_keystore
          (encode_to_string (c.sha256 keystore.auth_public)) keystore.auth_public
          keystore.wrap_public (pos t) (c.ed25519_sign keystore.auth_private payload)
          (c.encode_base64url proof)

    coordinates :
        (now t' : ℕ) (payload proof : Bytes)
        → invite.version ≡ pos 1
        → canonical_server_origin u invite.server_origin ≡ ok invite.server_origin
        → invite.expires_at ≡ pos t'
        → unix now < t
        → t ≤ t'
        → check_coordinates u invite.namespace_id invite (request payload proof) now ≡ ok tt
    unfolding check_coordinates join_request_of
    coordinates now t' payload proof hv ho he hn ht =
        let a : lez (pos t') (pos 0) ≡ false = ground arith in
        let b : lez (pos t') (pos (unix now)) ≡ false = ground arith in
        let d : lez (pos t) (pos (unix now)) ≡ false = ground arith in
        let l : ltz (pos t') (pos t) ≡ false = ground arith in
        rw
          (
            hv,
            he,
            a,
            b,
            same invite.namespace_id,
            same invite.invite_id,
            ho,
            same invite.server_origin,
            same identity_kind_keystore,
            d,
            l,
          )
          refl

    origin_hash :
        canonical_server_origin u invite.server_origin ≡ ok invite.server_origin
        → server_origin_hash u c invite.server_origin ≡ ok (c.sha256 invite.server_origin)
    unfolding server_origin_hash
    origin_hash ho = rw (ho, same invite.server_origin) refl

    wrap_key :
        parse_x25519_public_key_hex c "joinRequest.wrapPublicKey"
          (encode_to_string keystore.wrap_public)
        ≡ ok keystore.wrap_public
    unfolding parse_x25519_public_key_hex new_dummy_keystore
    wrap_key =
        rw
          (
            decode_lower_hex_exact-encoded "joinRequest.wrapPublicKey" keystore.wrap_public 32
                (laws.x25519_public-IsSized keystore.wrap_private),
            laws.x25519_new_public_key-public keystore.wrap_private,
          )
          refl

    auth_key :
        decode_lower_hex_exact "joinRequest.authPublicKey"
          (encode_to_string keystore.auth_public)
          32
        ≡ ok keystore.auth_public
    unfolding new_dummy_keystore
    auth_key =
        decode_lower_hex_exact-encoded "joinRequest.authPublicKey" keystore.auth_public 32
          (laws.ed25519_public-IsSized keystore.auth_private)

    key_id_matches :
        verify_key_id_matches_auth_public_key c
          (encode_to_string (c.sha256 keystore.auth_public))
          keystore.auth_public
        ≡ ok tt
    unfolding verify_key_id_matches_auth_public_key key_id_from_auth_public_key
    key_id_matches =
        rw
          (
            decode_lower_hex_exact-encoded "keyId" (c.sha256 keystore.auth_public) 32
                (laws.sha256-IsSized keystore.auth_public),
            same (c.sha256 keystore.auth_public),
          )
          refl

    abbrev spelled : Bytes → Bytes → ParsedNamespaceJoinRequest
    spelled payload proof = record {
      payload = payload;
      hash = encode_to_string (c.sha256 payload);
      signature = c.ed25519_sign keystore.auth_private payload;
      invite_proof = proof;
      auth_public_key = keystore.auth_public;
      wrap_public_key = keystore.wrap_public;
    }

    parsed :
        (n i payload proof : Bytes)
        → decode_lower_hex_exact "joinRequest.namespaceId" invite.namespace_id namespace_id_length
          ≡ ok n
        → decode_lower_hex_exact "joinRequest.inviteId" invite.invite_id invite_id_length ≡ ok i
        → canonical_server_origin u invite.server_origin ≡ ok invite.server_origin
        → join_request_payload identity_kind_keystore n i
            (c.sha256 invite.server_origin)
            (c.sha256 keystore.auth_public)
            keystore.auth_public
            keystore.wrap_public
            (to_uint64 (pos t))
          ≡ ok payload
        → length proof ≡ 32
        → parse_namespace_join_request u c (request payload proof) ≡ ok (spelled payload proof)
    unfolding parse_namespace_join_request join_request_of parse_ed25519_public_key_hex
        encode_ed25519_public_key encode_x25519_public_key join_request_hash
    parsed n i payload proof hn hi ho hp hl =
        let a : ltz (pos t) (pos 0) ≡ false = ground arith in
        rw
          (
            same identity_kind_keystore,
            a,
            hn,
            hi,
            origin_hash ho,
            decode_lower_hex_exact-encoded "joinRequest.keyId" (c.sha256 keystore.auth_public) 32
                (laws.sha256-IsSized keystore.auth_public),
            auth_key,
            wrap_key,
            decode_lower_hex_exact-encoded "joinRequest.signature"
                (c.ed25519_sign keystore.auth_private payload) 64
                (laws.ed25519_sign-IsSized keystore.auth_private payload),
            decode_url-encoded "joinRequest.inviteProof" proof 32 hl,
            key_id_matches,
            hp,
          )
          refl

    checked :
        (secret payload proof : Bytes) (entry : NamespaceJoinRequestEntry)
        → decode_base64url_exact c "inviteSecret" invite.invite_secret invite_secret_length
          ≡ ok secret
        → invite_proof c secret payload ≡ ok proof
        → entry.join_request_hash ≡ encode_to_string (c.sha256 payload)
        → (v : VerifiedJoinRequest) × (check_parsed u c invite entry (spelled payload proof) ≡ ok v)
          × (v.wrap_public_key ≡ keystore.wrap_public)
    unfolding check_parsed verify_invite_proof derive_invite_server_secret new_dummy_keystore
    checked secret payload proof entry hs hp hh =
        let (coded, size) = decode_base64url_exact_ok c "inviteSecret" invite.invite_secret 32 hs in
        let fits : (length secret == 32) ≡ true = ground arith in
        let sized : (length proof == 32) ≡ true =
          ground (arith, proof_length secret payload proof hp) in
        (
          record {
            wrap_public_key = keystore.wrap_public;
            invite_server_secret =
                c.hmac_sha256 secret (codes "bitboxsync-invite-server-secret-v1");
            join_request_hash = encode_to_string (c.sha256 payload);
          },
          rw
              (
                hh,
                same (encode_to_string (c.sha256 payload)),
                laws.verify-sign keystore.auth_private payload,
                hs,
                sized,
                hp,
                same proof,
                fits,
              )
              refl,
          refl,
        )

    -- An honest join request is approved: a software keystore signs it for an invite of this version
    -- with a canonical origin, and SubmitJoinRequest proves the secret of the invite over the signed
    -- payload. Then verifyJoinRequestForApproval returns the wrap key of the keystore, at every time
    -- before the request expires, if it expires no later than the invite, for the laws of signatures,
    -- codings and sizes.
    pub honest_join_request :
        (n i secret payload proof : Bytes) (now t' : ℕ) (entry : NamespaceJoinRequestEntry)
        → invite.version ≡ pos 1
        → invite.expires_at ≡ pos t'
        → unix now < t
        → t ≤ t'
        → canonical_server_origin u invite.server_origin ≡ ok invite.server_origin
        → decode_lower_hex_exact "joinRequest.namespaceId" invite.namespace_id namespace_id_length
          ≡ ok n
        → decode_lower_hex_exact "joinRequest.inviteId" invite.invite_id invite_id_length ≡ ok i
        → decode_base64url_exact c "inviteSecret" invite.invite_secret invite_secret_length
          ≡ ok secret
        → join_request_payload identity_kind_keystore n i
            (c.sha256 invite.server_origin)
            (c.sha256 keystore.auth_public)
            keystore.auth_public
            keystore.wrap_public
            (to_uint64 (pos t))
          ≡ ok payload
        → invite_proof c secret payload ≡ ok proof
        → entry.join_request ≡ request payload proof
        → entry.join_request_hash ≡ encode_to_string (c.sha256 payload)
        → (sign_namespace_join_request_intent c u keystore n i invite.server_origin (pos t)
            ≡ ok (c.ed25519_sign keystore.auth_private payload))
          × (v : VerifiedJoinRequest) × (verify_join_request_for_approval u c invite.namespace_id
                invite entry now
              ≡ ok v)
          × (v.wrap_public_key ≡ keystore.wrap_public)
    unfolding verify_join_request_for_approval sign_namespace_join_request_intent keystore_key_id
        key_id_from_auth_public_key sign_payload
    honest_join_request n i secret payload proof now t' entry hv he hn ht ho hns hi hs hp hq hr hh =
        let (v, approved, key) = checked secret payload proof entry hs hq hh in
        let fresh : check_coordinates u invite.namespace_id invite entry.join_request now ≡ ok tt =
          rw (hr) (coordinates now t' payload proof hv ho he hn ht) in
        let spells : parse_namespace_join_request u c entry.join_request
            ≡ ok (spelled payload proof) =
          rw (hr) (parsed n i payload proof hns hi ho hp (proof_length secret payload proof hq)) in
        let a : ltz (pos t) (pos 0) ≡ false = ground arith in
        (rw (a, origin_hash ho, hp) refl, v, rw (fresh, spells, approved) refl, key)

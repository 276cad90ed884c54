-- ===== src/Tests/Keystore.antt =====
-- The software keystore at concrete inputs.
use bitboxsync_client_go.Prelude.{
  String, ◌<◌, ◌+◌, ◌-◌, ◌++◌, ◌&&◌, Bool, true, false, [], ◌∷◌, some, ltb, ltb→lt, All, length,
  ◌≡◌, refl, arith, Bool-cases, inl, inr,
}
use bitboxsync_client_go.Prelude.Bytes.{Bytes, codes, bytes_eq, put_uint64}
use bitboxsync_client_go.Prelude.Int.{pos, to_uint64}
use bitboxsync_client_go.Result.{ok}
use bitboxsync_client_go.Api.Invites.{NamespaceJoinRequestEntry}
use bitboxsync_client_go.Keystore.{
  DummyKeystore, new_dummy_keystore, attest, sign_namespace_join_request_intent,
}
use bitboxsync_client_go.Keystore.Attest.{attest_total}
use bitboxsync_client_go.Protocol.Signing.{SigningLaws}
use bitboxsync_client_go.Protocol.Hex.{
  to_lower, decode_string, from_hex_digit, decode_hex_exact, decode_lower_hex_exact,
  encode_to_string,
}
use bitboxsync_client_go.Protocol.Intent.{
  identity_kind_keystore, join_request_prefix, kind_code, join_request_payload,
}
use bitboxsync_client_go.Protocol.Origin.{
  is_ascii, is_label, is_label_char, canonical_port, check_host, canonical_of_url,
  canonical_server_origin,
}
use bitboxsync_client_go.Protocol.Secrets.{
  contains, decode_base64url_exact, derive_invite_proof_key, invite_proof,
}
use bitboxsync_client_go.Sync.Invites.{VerifiedJoinRequest, verify_join_request_for_approval}
use bitboxsync_client_go.Sync.Invites.Honest.{request, honest_join_request}
use bitboxsync_client_go.Tests.World.{
  small_urls, small_origin, thirty_two, sixteen, namespace_hex, item_hex,
}
use bitboxsync_client_go.Tests.Signing.{flat_crypto, invite, clock, shifted, shifted_back}

abbrev all_bytes : Bytes → Bool
all_bytes [] = true
all_bytes (b ∷ bs) = ltb b 256 && all_bytes bs

all_bytes-All : (bs : Bytes) → all_bytes bs ≡ true → All (λ b. b < 256) bs
all_bytes-All [] h = tt
all_bytes-All (b ∷ bs) h = elim (Bool-cases (ltb b 256)) [
  | inl small ↦ (ltb→lt b 256 small, all_bytes-All bs (ground arith))
  | inr large ↦ absurd (ground arith)
]

shifted_back-shifted : (bs : Bytes) → shifted_back (shifted bs) ≡ bs
shifted_back-shifted [] = refl
shifted_back-shifted (b ∷ bs) =
    let same : b + 62 - 62 ≡ b = omega arith in rw (same, shifted_back-shifted bs) refl

shifted_unpadded : (bs : Bytes) → contains b'=' (shifted bs) ≡ false
shifted_unpadded [] = refl
shifted_unpadded (b ∷ bs) = ground (arith, shifted_unpadded bs)

flat-SigningLaws : SigningLaws flat_crypto
flat-SigningLaws = record {
  verify-sign = λ private m. refl;
  ed25519_public-IsSized = λ private. (refl, all_bytes-All (thirty_two 1) refl);
  ed25519_sign-IsSized = λ private m. (refl, all_bytes-All (thirty_two 2 ++ thirty_two 3) refl);
  x25519_public-IsSized = λ private. (refl, all_bytes-All (thirty_two 4) refl);
  x25519_new_public_key-public = λ private. refl;
  hmac-IsSized = λ secret m. (refl, all_bytes-All (thirty_two 18) refl);
  sha256-IsSized = λ m. (refl, all_bytes-All (thirty_two 17) refl);
  decode-encode_url = λ raw. cc (shifted_back-shifted raw);
  encode_url_unpadded = λ raw. shifted_unpadded raw;
}

abbrev keystore : DummyKeystore
keystore = new_dummy_keystore flat_crypto []

attest_total_example :
    (rest : Bytes) × (attest flat_crypto keystore [] ≡ some (0 ∷ rest)) × (length rest ≡ 256)
attest_total_example = attest_total flat_crypto flat-SigningLaws keystore []

abbrev signed_payload : Bytes
signed_payload =
    join_request_prefix
    ++ (1
        ∷ (sixteen 17
            ++ (sixteen 17
                ++ (thirty_two 17
                    ++ (1
                        ∷ (thirty_two 17 ++ (thirty_two 1 ++ (thirty_two 4 ++ put_uint64 600))))))))

abbrev entry : NamespaceJoinRequestEntry
entry = record {
  invite_id = namespace_hex;
  join_request_hash = item_hex;
  created_at = 0;
  status = codes "pending";
  join_request =
      request flat_crypto flat-SigningLaws small_urls [] invite 600 signed_payload (thirty_two 18);
}

origin : canonical_server_origin small_urls small_origin ≡ ok small_origin
unfolding canonical_server_origin canonical_of_url check_host canonical_port is_ascii is_label
    is_label_char to_lower bytes_eq
origin = refl

decoded : (name : String) → decode_lower_hex_exact name namespace_hex 16 ≡ ok (sixteen 17)
unfolding decode_lower_hex_exact decode_hex_exact decode_string from_hex_digit to_lower bytes_eq
decoded name = refl

secret : decode_base64url_exact flat_crypto "inviteSecret" (thirty_two 81) 32 ≡ ok (thirty_two 19)
unfolding decode_base64url_exact bytes_eq
secret = refl

proof : invite_proof flat_crypto (thirty_two 19) signed_payload ≡ ok (thirty_two 18)
unfolding invite_proof derive_invite_proof_key
proof = refl

payload :
    join_request_payload identity_kind_keystore
      (sixteen 17)
      (sixteen 17)
      (thirty_two 17)
      (thirty_two 17)
      keystore.auth_public
      keystore.wrap_public
      (to_uint64 (pos 600))
    ≡ ok signed_payload
unfolding join_request_payload kind_code bytes_eq new_dummy_keystore
payload = refl

hashed : item_hex ≡ encode_to_string (flat_crypto.sha256 signed_payload)
unfolding encode_to_string
hashed = refl

honest_join_request_example :
    (sign_namespace_join_request_intent flat_crypto small_urls keystore
        (sixteen 17)
        (sixteen 17)
        small_origin
        (pos 600)
      ≡ ok (thirty_two 2 ++ thirty_two 3))
    × (v : VerifiedJoinRequest) × (verify_join_request_for_approval small_urls flat_crypto
          namespace_hex invite entry clock
        ≡ ok v)
    × (v.wrap_public_key ≡ keystore.wrap_public)
honest_join_request_example =
    honest_join_request flat_crypto flat-SigningLaws small_urls [] invite 600 (sixteen 17)
      (sixteen 17) (thirty_two 19) signed_payload (thirty_two 18) clock 900 entry refl refl
      (omega arith) (omega arith) origin (decoded "joinRequest.namespaceId")
      (decoded "joinRequest.inviteId") secret payload proof refl hashed

-- ===== src/Tests/Signing.antt =====
-- Payloads, wrapped keys, entity tags and invites at concrete inputs.
use bitboxsync_client_go.Prelude.{
  ℕ, ◌<◌, ◌≤◌, ◌+◌, ◌-◌, some, ◌++◌, ◌↔◌, min, true, [], ◌∷◌, ◌≡◌, refl, arith, if◌then◌else◌,
}
use bitboxsync_client_go.Prelude.Bytes.{Bytes, codes, bytes_eq}
use bitboxsync_client_go.Prelude.Int.{pos}
use bitboxsync_client_go.Result.{ok, err, namespace_mismatch}
use bitboxsync_client_go.Api.Invites.{NamespaceInviteToken, NamespaceJoinRequestEntry}
use bitboxsync_client_go.Protocol.Crypto.{Crypto}
use bitboxsync_client_go.Protocol.Hex.{
  to_lower, decode_string, from_hex_digit, decode_hex_exact, decode_lower_hex_exact,
  encode_to_string,
}
use bitboxsync_client_go.Protocol.Etag.{quote_etag, parse_if_match}
use bitboxsync_client_go.Protocol.Etag.RoundTrip.{parse_if_match_iff}
use bitboxsync_client_go.Protocol.Intent.{
  identity_kind_keystore, intent_prefix, login_intent, kind_code, join_request_payload,
}
use bitboxsync_client_go.Protocol.Intent.Parts.{Statement, log_in, payload}
use bitboxsync_client_go.Protocol.Intent.Distinct.{payload_inj}
use bitboxsync_client_go.Protocol.Keys.{
  parse_ed25519_public_key_hex, parse_x25519_public_key_hex, key_id_from_auth_public_key,
  verify_key_id_matches_auth_public_key,
}
use bitboxsync_client_go.Protocol.Origin.{
  is_ascii, is_label, is_label_char, canonical_port, check_host, canonical_of_url,
  canonical_server_origin, server_origin_hash,
}
use bitboxsync_client_go.Protocol.Secrets.{
  decode_base64url_exact, derive_invite_server_secret, derive_invite_proof_key, invite_proof,
  verify_invite_proof, join_request_hash,
}
use bitboxsync_client_go.Protocol.Wrap.{wrap_namespace_dek, unwrap_namespace_dek}
use bitboxsync_client_go.Protocol.Wrap.RoundTrip.{unwrap-wrap}
use bitboxsync_client_go.Sync.Invites.{
  unix, ParsedNamespaceJoinRequest, VerifiedJoinRequest, parse_namespace_join_request,
  check_coordinates, check_parsed, verify_join_request_for_approval,
}
use bitboxsync_client_go.Sync.Invites.Fresh.{IsFresh}
use bitboxsync_client_go.Sync.Invites.Parsed.{IsSpelled}
use bitboxsync_client_go.Result.{Error}
use bitboxsync_client_go.Engine.State.{Engine}
use bitboxsync_client_go.Sync.Invites.Approved.{approve_join_request_sound}
use bitboxsync_client_go.Sync.Invites.Approval.{IsProven, verify_join_request_sound}
use bitboxsync_client_go.Sync.Invites.Create.{NamespaceInviteOptions}
use bitboxsync_client_go.Sync.Invites.Join.{
  NamespaceJoinRequestOptions, effective_ttl, check_expiry, join_expiry,
}
use bitboxsync_client_go.Sync.Invites.Manage.{approve_join_request}
use bitboxsync_client_go.Sync.Invites.Limits.{join_expiry_bounds, join_expiry_default}
use bitboxsync_client_go.Tests.World.{
  plain_crypto, start, plain-WrapLaws, small_urls, small_origin, small_engine, thirty_two, sixteen,
  namespace_hex, item_hex,
}

abbrev key : Bytes
key = thirty_two 7

abbrev a_login : Statement
a_login = log_in key identity_kind_keystore key key key

abbrev signed_bytes : Bytes
signed_bytes = intent_prefix ++ (1 ∷ 1 ∷ (key ++ (1 ∷ (key ++ (key ++ key)))))

login_payload : payload a_login ≡ ok signed_bytes
unfolding payload login_intent kind_code bytes_eq
login_payload = refl

payload_inj_example : a_login ≡ a_login
payload_inj_example = payload_inj a_login a_login tt tt login_payload login_payload

abbrev a_namespace : Bytes
a_namespace = sixteen 17

abbrev wrapped : Bytes
wrapped = 1 ∷ (thirty_two 0 ++ ((a_namespace ++ key) ++ sixteen 0))

wrapping : wrap_namespace_dek plain_crypto [] (thirty_two 4) a_namespace key ≡ ok wrapped
unfolding wrap_namespace_dek
wrapping = refl

unwrap-wrap_example :
    unwrap_namespace_dek plain_crypto [] (sixteen 18) wrapped
    ≡ (if bytes_eq a_namespace (sixteen 18) then ok key else err namespace_mismatch)
unwrap-wrap_example =
    unwrap-wrap plain_crypto plain-WrapLaws [] [] a_namespace (sixteen 18) key refl wrapping

parse_if_match_iff_example :
    (parse_if_match (codes "\"17\"") ≡ ok (17, true)) ↔ (codes "\"17\"" ≡ quote_etag 17)
parse_if_match_iff_example = parse_if_match_iff (codes "\"17\"") 17 (omega arith)

abbrev limit : ℕ
limit = 10

abbrev open_options : NamespaceJoinRequestOptions
open_options = record { ttl = pos 0; expires_at = pos 0 }

ten_minutes : join_expiry 0 open_options (pos 900) ≡ ok (pos 600)
unfolding join_expiry effective_ttl check_expiry
ten_minutes = refl

abbrev pub clock : ℕ
clock = 0

join_expiry_bounds_example :
    (n : ℕ) × (pos 600 ≡ pos n) × (unix clock < n) × (n ≤ unix clock + 600) × (n ≤ 900)
join_expiry_bounds_example = join_expiry_bounds clock open_options 900 ten_minutes

join_expiry_default_example :
    join_expiry clock open_options (pos 900) ≡ ok (pos (min (unix clock + 600) 900))
join_expiry_default_example = join_expiry_default clock open_options 900 refl refl (omega arith)

-- a coding without the byte of `=`
abbrev pub shifted : Bytes → Bytes
shifted [] = []
shifted (b ∷ bs) = (b + 62) ∷ shifted bs

abbrev pub shifted_back : Bytes → Bytes
shifted_back [] = []
shifted_back (b ∷ bs) = (b - 62) ∷ shifted_back bs

-- a hash and a MAC of one value, of the standard's size
abbrev pub flat_crypto : Crypto
flat_crypto = record plain_crypto {
  sha256 = λ m. thirty_two 17;
  hmac_sha256 = λ secret m. thirty_two 18;
  encode_base64url = λ bytes. shifted bytes;
  decode_base64url = λ text. some (shifted_back text);
}

abbrev pub invite : NamespaceInviteToken
invite = record {
  version = pos 1;
  server_origin = small_origin;
  namespace_id = namespace_hex;
  invite_id = namespace_hex;
  expires_at = pos 900;
  invite_secret = thirty_two 81;
}

abbrev entry : NamespaceJoinRequestEntry
entry = record {
  invite_id = namespace_hex;
  join_request_hash = item_hex;
  created_at = 0;
  status = codes "pending";
  join_request = record {
    version = pos 1;
    namespace_id = namespace_hex;
    invite_id = namespace_hex;
    server_origin = small_origin;
    kind = codes "keystore";
    key_id = item_hex;
    auth_public_key = item_hex;
    wrap_public_key = item_hex;
    expires_at = pos 600;
    signature = item_hex ++ item_hex;
    invite_proof = thirty_two 80;
  };
}

abbrev approved : VerifiedJoinRequest
approved = record {
  wrap_public_key = thirty_two 17;
  invite_server_secret = thirty_two 18;
  join_request_hash = item_hex;
}

approval :
    verify_join_request_for_approval small_urls flat_crypto namespace_hex invite entry 0
    ≡ ok approved
unfolding verify_join_request_for_approval check_coordinates parse_namespace_join_request
    check_parsed canonical_server_origin canonical_of_url check_host canonical_port is_ascii
    is_label is_label_char server_origin_hash decode_lower_hex_exact decode_hex_exact decode_string
    from_hex_digit to_lower bytes_eq parse_ed25519_public_key_hex parse_x25519_public_key_hex
    verify_key_id_matches_auth_public_key key_id_from_auth_public_key decode_base64url_exact
    verify_invite_proof invite_proof derive_invite_proof_key derive_invite_server_secret
    join_request_hash join_request_payload kind_code encode_to_string
approval = refl

verify_join_request_sound_example :
    IsFresh small_urls namespace_hex invite entry.join_request clock
    × (p : ParsedNamespaceJoinRequest) × IsSpelled small_urls flat_crypto entry.join_request p
    × IsProven flat_crypto invite entry p approved
verify_join_request_sound_example =
    verify_join_request_sound small_urls flat_crypto namespace_hex invite entry clock approval

abbrev invite_options : NamespaceInviteOptions
invite_options = record {
  server_origin = small_origin;
  invite_id = [];
  invite_secret = [];
  ttl = pos 0;
  max_accepted = pos 0;
}

-- the small engine with this cryptography, at the time of the request
abbrev approver : Engine Unit
approver = record small_engine { crypto = flat_crypto; now = λ x. (clock, x) }

approve_join_request_sound_example :
    ((x : Error)
      → verify_join_request_for_approval small_urls flat_crypto namespace_hex invite entry clock
        ≡ err x
      → approve_join_request approver namespace_hex invite entry start ≡ (err x, start))
    × ((approve_join_request approver namespace_hex invite entry start).0 ≡ ok tt
        → IsFresh small_urls namespace_hex invite entry.join_request clock
          × (v : VerifiedJoinRequest) × (verify_join_request_for_approval small_urls flat_crypto
                namespace_hex invite entry clock
              ≡ ok v)
          × (p : ParsedNamespaceJoinRequest) × IsSpelled small_urls flat_crypto entry.join_request p
          × IsProven flat_crypto invite entry p v)
approve_join_request_sound_example =
    approve_join_request_sound approver namespace_hex invite entry start

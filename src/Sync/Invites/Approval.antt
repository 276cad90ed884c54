-- ===== src/Sync/Invites/Approval.antt =====
-- bitboxsync/namespace_invites.go: what an approval rests on.
use bitboxsync_client_go.Prelude.{ℕ, true, not, length, ◌≡◌, refl, sym, ◌∙◌, arith}
use bitboxsync_client_go.Prelude.Bytes.{Bytes, codes}
use bitboxsync_client_go.Result.{ok}
use bitboxsync_client_go.Result.Steps.{bind_ok, refuse_ok, require_ok, same_ok, same_passed, ok_inj}
use bitboxsync_client_go.Api.Invites.{NamespaceInviteToken, NamespaceJoinRequestEntry}
use bitboxsync_client_go.Protocol.Crypto.{Crypto}
use bitboxsync_client_go.Protocol.Url.{UrlParser}
use bitboxsync_client_go.Protocol.Secrets.{
  decode_base64url_exact, verify_invite_proof, invite_proof, derive_invite_proof_key,
  derive_invite_server_secret, invite_secret_length, invite_proof_length,
}
use bitboxsync_client_go.Sync.Invites.{
  ParsedNamespaceJoinRequest, VerifiedJoinRequest, parse_namespace_join_request, check_coordinates,
  check_parsed, verify_join_request_for_approval,
}
use bitboxsync_client_go.Sync.Invites.Fresh.{IsFresh, check_coordinates-IsFresh}
use bitboxsync_client_go.Sync.Invites.Parsed.{IsSpelled, decode_base64url_exact_ok, parse-IsSpelled}

-- The requester has signed the payload and has proved that it knows the secret of the invite, and
-- the entry carries the hash of that payload.
pub record IsProven (c : Crypto) (invite : NamespaceInviteToken) (entry : NamespaceJoinRequestEntry)
    (p : ParsedNamespaceJoinRequest) (v : VerifiedJoinRequest) : Type 0 where
  pub secret : Bytes
  pub secret_base64url : c.encode_base64url secret ≡ invite.invite_secret
  pub hash_agrees : entry.join_request_hash ≡ p.hash
  pub signed : c.ed25519_verify p.auth_public_key p.payload p.signature ≡ true
  pub proven :
      c.hmac_sha256 (c.hmac_sha256 secret (codes "bitboxsync-invite-proof-key-v1")) p.payload
      ≡ p.invite_proof
  pub handed_on_key : v.wrap_public_key ≡ p.wrap_public_key
  pub handed_on_hash : v.join_request_hash ≡ p.hash
  pub handed_on_secret :
      v.invite_server_secret ≡ c.hmac_sha256 secret (codes "bitboxsync-invite-server-secret-v1")

module _ (c : Crypto) where
  proof_ok :
      (secret payload proof : Bytes)
      → verify_invite_proof c secret payload proof ≡ ok tt
      → c.hmac_sha256 (c.hmac_sha256 secret (codes "bitboxsync-invite-proof-key-v1")) payload
        ≡ proof
  unfolding verify_invite_proof invite_proof derive_invite_proof_key
  proof_ok secret payload proof h =
      let (l, h1) = require_ok (length proof) invite_proof_length _ _ h in
      let (expected, d, h2) = bind_ok (invite_proof c secret payload) _ h1 in
      let (key, dk, h3) = bind_ok (derive_invite_proof_key c secret) _ d in
      let (ls, h4) = require_ok (length secret) invite_secret_length _ _ dk in
      let e = same_passed expected proof _ h2 in
      let k = ok_inj h4 in let x = ok_inj h3 in rw (k) (x ∙ e)

  check_parsed-IsProven :
      (u : UrlParser) (invite : NamespaceInviteToken) (entry : NamespaceJoinRequestEntry)
      (p : ParsedNamespaceJoinRequest) {v : VerifiedJoinRequest}
      → check_parsed u c invite entry p ≡ ok v
      → IsProven c invite entry p v
  unfolding check_parsed derive_invite_server_secret
  check_parsed-IsProven u invite entry p {v} h =
      let (same, h1) = same_ok entry.join_request_hash p.hash _ _ h in
      let (signed, h2) =
        refuse_ok (not (c.ed25519_verify p.auth_public_key p.payload p.signature)) _ _ h1 in
      let (secret, ds, h3) =
        bind_ok (decode_base64url_exact c _ invite.invite_secret invite_secret_length) _ h2 in
      let (done, dp, h4) = bind_ok (verify_invite_proof c secret p.payload p.invite_proof) _ h3 in
      let (server, dv, h5) = bind_ok (derive_invite_server_secret c secret) _ h4 in
      let (ls, h6) = require_ok (length secret) invite_secret_length _ _ dv in
      let (coded, size) =
        decode_base64url_exact_ok c _ invite.invite_secret invite_secret_length ds in
      let made = ok_inj h5 in
      rw (← made) (record {
        secret = secret;
        secret_base64url = coded;
        hash_agrees = same;
        signed = ground arith;
        proven = proof_ok secret p.payload p.invite_proof dp;
        handed_on_key = refl;
        handed_on_hash = refl;
        handed_on_secret = sym (ok_inj h6);
      })

-- verifyJoinRequestForApproval, whatever the cryptography: when it returns, invite and request name
-- the approver's namespace, one invite and one canonical origin, the request has not expired and does
-- not outlive the invite, its fields spell out a payload that the key of its key ID has signed, and the
-- requester has proved the knowledge of the invite's secret for that very payload. What the approval
-- goes on with is the wrap key of that payload.
pub verify_join_request_sound :
    (u : UrlParser) (c : Crypto) (n : Bytes) (invite : NamespaceInviteToken)
    (entry : NamespaceJoinRequestEntry) (now : ℕ) {v : VerifiedJoinRequest}
    → verify_join_request_for_approval u c n invite entry now ≡ ok v
    → IsFresh u n invite entry.join_request now
      × (p : ParsedNamespaceJoinRequest) × IsSpelled u c entry.join_request p
      × IsProven c invite entry p v
unfolding verify_join_request_for_approval
verify_join_request_sound u c n invite entry now h =
    let r = entry.join_request in
    let (done, fresh, h1) = bind_ok (check_coordinates u n invite r now) _ h in
    let (p, parsed, h2) = bind_ok (parse_namespace_join_request u c r) _ h1 in
    (
      check_coordinates-IsFresh u n invite r now fresh,
      p,
      parse-IsSpelled u c r parsed,
      check_parsed-IsProven c u invite entry p h2,
    )

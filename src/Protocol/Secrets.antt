-- ===== src/Protocol/Secrets.antt =====
-- protocol/crypto.go: the secret of an invite, what is derived from it, and the proof of its knowledge.
use bitboxsync_client_go.Prelude.{
  ℕ, Bool, false, ◌||◌, not, String, [], ◌∷◌, none, some, length, ◌==◌, if◌then◌else◌,
}
use bitboxsync_client_go.Prelude.Bytes.{Bytes, codes, bytes_eq}
use bitboxsync_client_go.Result.{Result, ok, err, other, refuse_if, ◌>>=◌, ◌>>◌}
use bitboxsync_client_go.Protocol.Crypto.{Crypto}

abbrev pub invite_secret_length : ℕ
invite_secret_length = 32

abbrev pub invite_proof_length : ℕ
invite_proof_length = 32

-- strings.Contains for one byte
abbrev pub contains : ℕ → Bytes → Bool
contains c [] = false
contains c (d ∷ rest) = c == d || contains c rest

module _ (c : Crypto) where
  unfoldable pub decode_base64url_exact : String → Bytes → ℕ → Result Bytes
  decode_base64url_exact name value size = do
    refuse_if (contains b'=' value) (other "must be unpadded base64url")
    elim (c.decode_base64url value) [
      | none ↦ err (other "decode base64url")
      | some raw ↦
          if not (length raw == size)
          then err (other "size")
          else if not (bytes_eq (c.encode_base64url raw) value)
          then err (other "canonical base64url")
          else ok raw
    ]

  unfoldable pub derive_invite_server_secret : Bytes → Result Bytes
  derive_invite_server_secret invite_secret = do
    refuse_if (not (length invite_secret == invite_secret_length)) (other "invite secret")
    ok (c.hmac_sha256 invite_secret (codes "bitboxsync-invite-server-secret-v1"))

  unfoldable pub derive_invite_proof_key : Bytes → Result Bytes
  derive_invite_proof_key invite_secret = do
    refuse_if (not (length invite_secret == invite_secret_length)) (other "invite secret")
    ok (c.hmac_sha256 invite_secret (codes "bitboxsync-invite-proof-key-v1"))

  unfoldable pub invite_proof : Bytes → Bytes → Result Bytes
  invite_proof invite_secret join_request_payload = do
    invite_proof_key ← derive_invite_proof_key invite_secret
    ok (c.hmac_sha256 invite_proof_key join_request_payload)

  unfoldable pub verify_invite_proof : Bytes → Bytes → Bytes → Result (Unit {0})
  verify_invite_proof invite_secret join_request_payload proof = do
    refuse_if (not (length proof == invite_proof_length)) (other "invite proof size")
    expected ← invite_proof invite_secret join_request_payload
    refuse_if (not (bytes_eq expected proof)) (other "invalid invite proof")

  unfoldable pub join_request_hash : Bytes → Bytes
  join_request_hash join_request_payload = c.sha256 join_request_payload

-- ===== src/Protocol/Signing.antt =====
-- Signatures and codings that are read back: what an honest signer and its readers rely on.
use bitboxsync_client_go.Prelude.{ℕ, ◌<◌, true, false, some, length, All, ◌≡◌}
use bitboxsync_client_go.Prelude.Bytes.{Bytes}
use bitboxsync_client_go.Protocol.Crypto.{Crypto}
use bitboxsync_client_go.Protocol.Secrets.{contains}

-- a byte string of this size
abbrev pub IsSized : Bytes → ℕ → Type 0
IsSized xs size = (length xs ≡ size) × All (λ b. b < 256) xs

-- A signature verifies, a coding is read back, and digests, keys and signatures have the sizes of the
-- standards. Raw base64url has no padding.
pub record SigningLaws (c : Crypto) : Type 0 where
  pub verify-sign :
      (private message : Bytes)
      → c.ed25519_verify (c.ed25519_public private) message (c.ed25519_sign private message) ≡ true
  pub ed25519_public-IsSized : (private : Bytes) → IsSized (c.ed25519_public private) 32
  pub ed25519_sign-IsSized : (private message : Bytes) → IsSized (c.ed25519_sign private message) 64
  pub x25519_public-IsSized : (private : Bytes) → IsSized (c.x25519_public private) 32
  pub x25519_new_public_key-public :
      (private : Bytes)
      → c.x25519_new_public_key (c.x25519_public private) ≡ some (c.x25519_public private)
  pub hmac-IsSized : (key message : Bytes) → IsSized (c.hmac_sha256 key message) 32
  pub sha256-IsSized : (message : Bytes) → IsSized (c.sha256 message) 32
  pub decode-encode_url : (raw : Bytes) → c.decode_base64url (c.encode_base64url raw) ≡ some raw
  pub encode_url_unpadded : (raw : Bytes) → contains b'=' (c.encode_base64url raw) ≡ false

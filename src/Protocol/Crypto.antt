-- ===== src/Protocol/Crypto.antt =====
-- The cryptography and the base64 codings that the client calls, as parameters with the documented
-- laws that it relies on.
use bitboxsync_client_go.Prelude.{ℕ, ◌+◌, Bool, Option, some, length, ◌≡◌}
use bitboxsync_client_go.Prelude.Bytes.{Bytes}

pub record Crypto : Type 0 where
  pub sha256 : Bytes → Bytes
  -- key, message
  pub hmac_sha256 : Bytes → Bytes → Bytes
  -- hkdf.Key over SHA-256 with no salt: secret, info, length
  pub hkdf_key : Bytes → Bytes → ℕ → Bytes
  -- XChaCha20-Poly1305: key, nonce, plaintext or ciphertext, associated data
  pub seal : Bytes → Bytes → Bytes → Bytes → Bytes
  pub unseal : Bytes → Bytes → Bytes → Bytes → Option Bytes
  -- base64.StdEncoding
  pub encode_base64 : Bytes → Bytes
  pub decode_base64 : Bytes → Option Bytes
  -- base64.RawURLEncoding
  pub encode_base64url : Bytes → Bytes
  pub decode_base64url : Bytes → Option Bytes
  -- crypto/ed25519: private key, message; public key, message, signature
  pub ed25519_public : Bytes → Bytes
  pub ed25519_sign : Bytes → Bytes → Bytes
  pub ed25519_verify : Bytes → Bytes → Bytes → Bool
  -- crypto/ecdh, X25519: the public key of a private one, and NewPublicKey
  pub x25519_public : Bytes → Bytes
  pub x25519_new_public_key : Bytes → Option Bytes
  -- crypto/hpke with this X25519 suite. NewSender and Seal: the randomness of the sender, the
  -- recipient's public key, info, plaintext; they give the encapsulated key and the ciphertext.
  pub hpke_seal : Bytes → Bytes → Bytes → Bytes → Option (Bytes × Bytes)
  -- NewRecipient and Open: private key, info, encapsulated key, ciphertext
  pub hpke_open : Bytes → Bytes → Bytes → Bytes → Option Bytes

pub record CryptoLaws (c : Crypto) : Type 0 where
  pub unseal-seal :
      (key nonce plaintext aad : Bytes)
      → c.unseal key nonce (c.seal key nonce plaintext aad) aad ≡ some plaintext
  pub decode-encode : (raw : Bytes) → c.decode_base64 (c.encode_base64 raw) ≡ some raw

-- HPKE in base mode: what was sealed for a key pair is opened by it; X25519 encapsulates in 32 bytes,
-- and the tag of ChaCha20-Poly1305 has 16.
pub record WrapLaws (c : Crypto) : Type 0 where
  pub hpke_open-seal :
      (seed private info plaintext enc ciphertext : Bytes)
      → c.hpke_seal seed (c.x25519_public private) info plaintext ≡ some (enc, ciphertext)
      → c.hpke_open private info enc ciphertext ≡ some plaintext
  pub hpke_lengths :
      (seed public info plaintext enc ciphertext : Bytes)
      → c.hpke_seal seed public info plaintext ≡ some (enc, ciphertext)
      → (length enc ≡ 32) × (length ciphertext ≡ length plaintext + 16)

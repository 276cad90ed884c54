-- ===== src/Protocol.antt =====
-- protocol/crypto.go: identifiers, associated data, item payloads.
pub mod Hex
pub mod Crypto
pub mod Item
pub mod Intent
pub mod Wrap
pub mod Decimal
pub mod Etag
pub mod Url
pub mod Origin
pub mod Keys
pub mod Secrets
pub mod InviteToken
pub mod Signing

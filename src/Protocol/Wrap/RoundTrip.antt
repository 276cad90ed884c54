-- ===== src/Protocol/Wrap/RoundTrip.antt =====
-- protocol/crypto.go: a wrapped DEK is unwrapped for its namespace only.
use bitboxsync_client_go.Prelude.{
  ◌∷◌, ◌++◌, some, length, length-append, take-append, drop-append, ◌≡◌, if◌then◌else◌,
  Option-cases, inl, inr, arith,
}
use bitboxsync_client_go.Prelude.Bytes.{Bytes, bytes_eq}
use bitboxsync_client_go.Result.{ok, err, namespace_mismatch}
use bitboxsync_client_go.Result.Steps.{require_ok}
use bitboxsync_client_go.Protocol.Crypto.{Crypto, WrapLaws}
use bitboxsync_client_go.Protocol.Wrap.{
  wrap_dek_info, wrapped_dek_length_for_version, validate_wrapped_dek, wrap_namespace_dek,
  open_bound, unwrap_namespace_dek,
}

module _ (c : Crypto) (laws : WrapLaws c) where
  sealed :
      (seed public n d : Bytes) {w : Bytes}
      → wrap_namespace_dek c seed public n d ≡ ok w
      → (length n ≡ 16)
        × (length d ≡ 32)
        × (enc : Bytes) × (ct : Bytes) × (c.hpke_seal seed public wrap_dek_info (n ++ d)
            ≡ some (enc, ct))
        × (1 ∷ (enc ++ ct) ≡ w)
  unfolding wrap_namespace_dek
  sealed seed public n d {w} h =
      let (ln, h1) = require_ok (length n) 16 _ _ h in
      let (ld, h2) = require_ok (length d) 32 _ _ h1 in
      elim (Option-cases (c.hpke_seal seed public wrap_dek_info (n ++ d))) [
        | inl bad ↦ absurd (ground arith)
        | inr ((enc, ct), found) ↦ (ln, ld, enc, ct, found, ground arith)
      ]

  -- A DEK that WrapNamespaceDEK wrapped for the public key of a pair is unwrapped by the private
  -- key for that namespace, and refused with ErrNamespaceMismatch for every other one, for an HPKE that
  -- opens what it seals.
  pub unwrap-wrap :
      (seed private n n' d : Bytes) {w : Bytes}
      → length n' ≡ 16
      → wrap_namespace_dek c seed (c.x25519_public private) n d ≡ ok w
      → unwrap_namespace_dek c private n' w
        ≡ (if bytes_eq n n' then ok d else err namespace_mismatch)
  unfolding unwrap_namespace_dek validate_wrapped_dek wrapped_dek_length_for_version open_bound
  unwrap-wrap seed private n n' d {w} ln' h =
      let (ln, ld, enc, ct, found, made) = sealed seed (c.x25519_public private) n d h in
      let opened = laws.hpke_open-seal seed private wrap_dek_info (n ++ d) enc ct found in
      let (le, lc) =
        laws.hpke_lengths seed (c.x25519_public private) wrap_dek_info (n ++ d) enc ct found in
      let size : length (enc ++ ct) ≡ 96 =
        omega (arith, length-append enc ct, length-append n d, ln, ld, le, lc) in
      let size' : length (n ++ d) ≡ 48 = omega (arith, length-append n d, ln, ld) in
      rw
        (
          ← made,
          ln',
          size,
          take-append 32 enc ct le,
          drop-append 32 enc ct le,
          opened,
          size',
          take-append 16 n d ln,
          drop-append 16 n d ln,
        )
        (ground arith)

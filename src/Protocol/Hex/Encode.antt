-- ===== src/Protocol/Hex/Encode.antt =====
-- Bytes that are coded in hexadecimal are read back.
use bitboxsync_client_go.Prelude.{
  ℕ, ◌<◌, ◌+◌, ◌*◌, ◌/◌, ◌%◌, String, [], ◌∷◌, true, some, ◌≡◌, refl, arith, map, length, ◌==◌, All,
}
use bitboxsync_client_go.Prelude.Bytes.{Bytes, bytes_eq_iff}
use bitboxsync_client_go.Result.{ok}
use bitboxsync_client_go.Protocol.Hex.{
  hex_digit, encode_to_string, from_hex_digit, decode_string, to_lower, decode_hex_exact,
  decode_lower_hex_exact,
}

from-hex_digit : (d : ℕ) → d < 16 → from_hex_digit (hex_digit d) ≡ some d
unfolding hex_digit from_hex_digit
from-hex_digit d h = ground arith

to_lower-hex_digit : (d : ℕ) → d < 16 → to_lower (hex_digit d) ≡ hex_digit d
unfolding hex_digit to_lower
to_lower-hex_digit d h = ground arith

decode_string-encode :
    (raw : Bytes) → All (λ b. b < 256) raw → decode_string (encode_to_string raw) ≡ some raw
unfolding decode_string encode_to_string
decode_string-encode [] h = refl
decode_string-encode (b ∷ bs) (small, rest) =
    let byte : b / 16 * 16 + b % 16 ≡ b = omega arith in
    rw
      (
        from-hex_digit (b / 16) (omega (arith, small)),
        from-hex_digit (b % 16) (omega arith),
        decode_string-encode bs rest,
        byte,
      )
      refl

map-to_lower-encode :
    (raw : Bytes)
    → All (λ b. b < 256) raw
    → map to_lower (encode_to_string raw) ≡ encode_to_string raw
unfolding encode_to_string
map-to_lower-encode [] h = refl
map-to_lower-encode (b ∷ bs) (small, rest) =
    rw
      (
        to_lower-hex_digit (b / 16) (omega (arith, small)),
        to_lower-hex_digit (b % 16) (omega arith),
        map-to_lower-encode bs rest,
      )
      refl

-- DecodeLowerHexExact reads back what EncodeToString wrote of bytes of the size asked for.
pub decode_lower_hex_exact-encoded :
    (name : String) (raw : Bytes) (size : ℕ)
    → (length raw ≡ size) × All (λ b. b < 256) raw
    → decode_lower_hex_exact name (encode_to_string raw) size ≡ ok raw
unfolding decode_lower_hex_exact decode_hex_exact
decode_lower_hex_exact-encoded name raw size (fits, bytes) =
    let text = encode_to_string raw in
    let low = (bytes_eq_iff (map to_lower text) text).1 (map-to_lower-encode raw bytes) in
    let same : (length raw == size) ≡ true = ground arith in
    let found = decode_string-encode raw bytes in ground arith

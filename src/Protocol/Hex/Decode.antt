-- ===== src/Protocol/Hex/Decode.antt =====
-- A text that is read as lowercase hexadecimal is the coding of what was read.
use bitboxsync_client_go.Prelude.{
  ℕ, ◌<◌, ◌+◌, ◌*◌, ◌/◌, ◌%◌, String, [], ◌∷◌, Option, none, some, ◌≡◌, refl, arith, map, length,
  ◌==◌, Bool-cases, Option-cases, inl, inr,
}
use bitboxsync_client_go.Prelude.Bytes.{Bytes, bytes_eq, bytes_eq_iff}
use bitboxsync_client_go.Result.{ok}
use bitboxsync_client_go.Protocol.Hex.{
  hex_digit, encode_to_string, from_hex_digit, from_hex_pair, decode_rest, decode_string, to_lower,
  decode_hex_exact, decode_lower_hex_exact,
}

-- a lowercase digit is the one of its value
from_hex_digit-lower :
    (c d : ℕ) → to_lower c ≡ c → from_hex_digit c ≡ some d → (hex_digit d ≡ c) × (d < 16)
unfolding hex_digit from_hex_digit to_lower
from_hex_digit-lower c d low h = ground arith

encode-decode_string :
    (text : Bytes) {raw : Bytes}
    → map to_lower text ≡ text
    → decode_string text ≡ some raw
    → encode_to_string raw ≡ text
unfolding decode_string encode_to_string
encode-decode_string [] {raw} low h = let e : [] ≡ raw = cc h in rw (← e) refl
encode-decode_string (c ∷ []) {raw} low h = absurd (cc)
encode-decode_string (c ∷ d ∷ rest) {raw} low h =
    step (from_hex_digit c) (from_hex_digit d) (decode_string rest)
      (λ d' e. from_hex_digit-lower c d' (cc low) e) (λ d' e. from_hex_digit-lower d d' (cc low) e)
      (λ bs e. encode-decode_string rest {raw = bs} (cc low) e) refl refl refl h
  where
    step :
        (hi lo : Option ℕ) (bs : Option Bytes)
        → ((x : ℕ) → from_hex_digit c ≡ some x → (hex_digit x ≡ c) × (x < 16))
        → ((x : ℕ) → from_hex_digit d ≡ some x → (hex_digit x ≡ d) × (x < 16))
        → ((r : Bytes) → decode_string rest ≡ some r → encode_to_string r ≡ rest)
        → from_hex_digit c ≡ hi
        → from_hex_digit d ≡ lo
        → decode_string rest ≡ bs
        → decode_rest (from_hex_pair hi lo) bs ≡ some raw
        → encode_to_string raw ≡ c ∷ d ∷ rest
    step (some x) (some y) (some r) hc hd hr ec ed er g =
        let (xc, xs) = hc x ec in
        let (yd, ys) = hd y ed in
        let e : (x * 16 + y) ∷ r ≡ raw = cc g in
        let hi : (x * 16 + y) / 16 ≡ x = omega (arith, xs, ys) in
        let lo : (x * 16 + y) % 16 ≡ y = omega (arith, xs, ys) in
        rw (← e, hi, lo, xc, yd, hr r er) refl
    step none lo bs hc hd hr ec ed er g = absurd (cc g)
    step (some x) none bs hc hd hr ec ed er g = absurd (cc g)
    step (some x) (some y) none hc hd hr ec ed er g = absurd (cc g)

-- What DecodeLowerHexExact accepts is the hexadecimal coding of what it returns, of the size asked
-- for: an identifier has one spelling.
pub decode_lower_hex_exact-encode :
    (name : String) (text : Bytes) (size : ℕ) {raw : Bytes}
    → decode_lower_hex_exact name text size ≡ ok raw
    → (encode_to_string raw ≡ text) × (length raw ≡ size)
unfolding decode_lower_hex_exact decode_hex_exact
decode_lower_hex_exact-encode name text size {raw} h =
    elim (Bool-cases (bytes_eq (map to_lower text) text)) [
      | inr upper ↦ absurd (ground arith)
      | inl low ↦ elim (Option-cases (decode_string text)) [
        | inl bad ↦ absurd (ground arith)
        | inr (r, found) ↦ elim (Bool-cases (length r == size)) [
          | inr short ↦ absurd (ground arith)
          | inl fits ↦
              let e : r ≡ raw = ground arith in
              (
                rw (← e) (
                    encode-decode_string text ((bytes_eq_iff (map to_lower text) text).0 low)
                      found),
                rw (← e) (ground arith),
              )
        ]
      ]
    ]

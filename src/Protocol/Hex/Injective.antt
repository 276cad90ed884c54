-- ===== src/Protocol/Hex/Injective.antt =====
-- Hexadecimal texts determine their bytes.
use bitboxsync_client_go.Prelude.{ℕ, ◌/◌, ◌%◌, ◌≡◌, refl, [], ◌∷◌, arith}
use bitboxsync_client_go.Prelude.Bytes.{Bytes}
use bitboxsync_client_go.Protocol.Hex.{hex_digit, encode_to_string}

hex_digit_inj : (a b : ℕ) → hex_digit a ≡ hex_digit b → a ≡ b
unfolding hex_digit
hex_digit_inj a b h = ground arith

byte_inj :
    (a b : ℕ)
    → hex_digit (a / 16) ≡ hex_digit (b / 16)
    → hex_digit (a % 16) ≡ hex_digit (b % 16)
    → a ≡ b
byte_inj a b hi lo =
    omega (arith, hex_digit_inj (a / 16) (b / 16) hi, hex_digit_inj (a % 16) (b % 16) lo)

-- hex.EncodeToString is injective.
pub encode_to_string_inj : (xs ys : Bytes) → encode_to_string xs ≡ encode_to_string ys → xs ≡ ys
unfolding encode_to_string
encode_to_string_inj [] [] h = refl
encode_to_string_inj [] (y ∷ ys) h = absurd (cc)
encode_to_string_inj (x ∷ xs) [] h = absurd (cc)
encode_to_string_inj (x ∷ xs) (y ∷ ys) h =
    cc (byte_inj x y (cc) (cc), encode_to_string_inj xs ys (cc))

-- ===== src/Protocol/Decimal.antt =====
-- strconv over base 10, as protocol/crypto.go uses it.
pub mod RoundTrip
use bitboxsync_client_go.Prelude.{
  ℕ, zero, suc, ◌+◌, ◌-◌, ◌*◌, ◌/◌, ◌%◌, ◌^◌, ◌&&◌, [], ◌∷◌, Option, none, some, leb, ltb, ◌==◌,
  if◌then◌else◌, Bool, true, false,
}
use bitboxsync_client_go.Prelude.Bytes.{Bytes}
use bitboxsync_client_go.Prelude.Int.{ℤ, pos, negsuc}

-- The digits of n before the text: `fuel` of them at most.
format_digits : ℕ → ℕ → Bytes → Bytes
format_digits zero n text = text
format_digits (suc fuel) n text =
    let longer = (b'0' + n % 10) ∷ text in
    let rest = format_digits fuel (n / 10) longer in if n / 10 == 0 then longer else rest

-- strconv.FormatUint(n, 10); a uint64 has twenty digits at most
unfoldable pub format_uint : ℕ → Bytes
unfolding format_digits
format_uint n = format_digits 20 n []

-- the digits read after a number, or nothing when one is no digit
parse_from : ℕ → Bytes → Option ℕ
parse_from n [] = some n
parse_from n (c ∷ cs) =
    let rest = parse_from (n * 10 + (c - b'0')) cs in
    if leb b'0' c && leb c b'9' then rest else none

abbrev in_range : ℕ → Option ℕ → Option ℕ
in_range bound none = none
in_range bound (some n) = if ltb n bound then some n else none

-- strconv.ParseUint(text, 10, bits)
unfoldable pub parse_uint : ℕ → Bytes → Option ℕ
unfolding parse_from
parse_uint bits [] = none
parse_uint bits (c ∷ cs) = in_range (2 ^ bits) (parse_from 0 (c ∷ cs))

abbrev signed : Bool → ℕ → Option ℕ → Option ℤ
signed negative bits none = none
signed false bits (some n) = if ltb n (2 ^ (bits - 1)) then some (pos n) else none
signed true bits (some zero) = some (pos 0)
signed true bits (some (suc n)) = if leb (suc n) (2 ^ (bits - 1)) then some (negsuc n) else none

-- strconv.ParseInt(text, 10, bits)
unfoldable pub parse_int : ℕ → Bytes → Option ℤ
parse_int bits [] = none
parse_int bits (c ∷ cs) =
    if c == b'+'
    then signed false bits (parse_uint bits cs)
    else if c == b'-'
    then signed true bits (parse_uint bits cs)
    else signed false bits (parse_uint bits (c ∷ cs))

-- strconv.FormatInt(v, 10)
unfoldable pub format_int : ℤ → Bytes
format_int (pos n) = format_uint n
format_int (negsuc n) = b'-' ∷ format_uint (n + 1)

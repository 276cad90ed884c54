-- ===== src/Protocol/Decimal/RoundTrip.antt =====
-- Decimal texts are read back.
use bitboxsync_client_go.Prelude.{
  ℕ, zero, suc, ◌+◌, ◌-◌, ◌*◌, ◌/◌, ◌%◌, ◌^◌, ◌<◌, ◌≤◌, [], ◌∷◌, some, length, ◌&&◌, true, leb,
  ◌==◌, ◌≡◌, refl, Bool-cases, inl, inr, arith,
}
use bitboxsync_client_go.Prelude.Bytes.{Bytes}
use bitboxsync_client_go.Protocol.Decimal.{format_digits, format_uint, parse_from, parse_uint}

parse_from-format :
    (fuel n : ℕ) (text : Bytes)
    → n < 10 ^ fuel
    → parse_from 0 (format_digits fuel n text) ≡ parse_from n text
unfolding format_digits parse_from
parse_from-format zero n text h = let z : n ≡ 0 = omega arith in rw (z) refl
parse_from-format (suc fuel) n text h =
    let down : n / 10 < 10 ^ fuel = smaller in
    let value : n / 10 * 10 + (b'0' + n % 10 - b'0') ≡ n = omega arith in
    let digit : (leb b'0' (b'0' + n % 10) && leb (b'0' + n % 10) b'9') ≡ true = ground arith in
    let rest = parse_from-format fuel (n / 10) ((b'0' + n % 10) ∷ text) down in
    elim (Bool-cases (n / 10 == 0)) [
      | inl last ↦
          let small : 0 + (b'0' + n % 10 - b'0') ≡ n = ground arith in rw (last, digit, small) refl
      | inr more ↦ rw (more, rest, digit, value) refl
    ]
  where
    smaller : n / 10 < 10 ^ fuel
    smaller = omega (arith, h)

format_digits-length :
    (fuel n : ℕ) (text : Bytes) → length text ≤ length (format_digits fuel n text)
unfolding format_digits
format_digits-length zero n text = omega arith
format_digits-length (suc fuel) n text =
    let rest = format_digits-length fuel (n / 10) ((b'0' + n % 10) ∷ text) in ground arith

parse_uint-parse_from :
    (bits n : ℕ) (text : Bytes)
    → 1 ≤ length text
    → n < 2 ^ bits
    → parse_from 0 text ≡ some n
    → parse_uint bits text ≡ some n
unfolding parse_uint
parse_uint-parse_from bits n [] some_digit fits h = absurd (omega arith)
parse_uint-parse_from bits n (c ∷ cs) some_digit fits h = ground arith

format_digits-nonempty : (fuel n : ℕ) → 1 ≤ length (format_digits (suc fuel) n [])
unfolding format_digits
format_digits-nonempty fuel n =
    let rest = format_digits-length fuel (n / 10) ((b'0' + n % 10) ∷ []) in ground arith

pub format_uint-nonempty : (n : ℕ) → 1 ≤ length (format_uint n)
unfolding format_uint
format_uint-nonempty n = format_digits-nonempty 19 n

-- ParseUint reads back what FormatUint wrote of a number that fits.
pub parse_uint-format : (n : ℕ) → n < 2 ^ 64 → parse_uint 64 (format_uint n) ≡ some n
unfolding format_uint parse_from
parse_uint-format n h =
    parse_uint-parse_from 64 n (format_digits 20 n []) (format_digits-nonempty 19 n) h
      (parse_from-format 20 n [] (omega arith))

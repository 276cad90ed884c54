-- ===== src/Protocol/Etag/RoundTrip.antt =====
-- protocol/crypto.go: a version has one entity tag.
use bitboxsync_client_go.Prelude.{
  ℕ, suc, ltb, true, false, ◌+◌, ◌<◌, ◌^◌, ◌-◌, ◌↔◌, [], ◌∷◌, ◌++◌, length, length-append, take,
  drop, take-append, ◌≡◌, refl, Bool-cases, Option-cases, inl, inr, arith,
}
use bitboxsync_client_go.Prelude.Bytes.{Bytes, bytes_eq, bytes_eq_iff}
use bitboxsync_client_go.Result.{ok}
use bitboxsync_client_go.Protocol.Decimal.{format_uint, parse_uint}
use bitboxsync_client_go.Protocol.Decimal.RoundTrip.{parse_uint-format, format_uint-nonempty}
use bitboxsync_client_go.Protocol.Etag.{is_blank, quoted, quote_etag, last, parse_if_match}

last-quoted : (text : Bytes) (c : ℕ) → last (c ∷ (text ++ (b'"' ∷ []))) ≡ b'"'
last-quoted [] c = refl
last-quoted (d ∷ text) c = last-quoted text d

quoted-NotBlank : (text : Bytes) → is_blank (quoted text) ≡ false
unfolding is_blank
quoted-NotBlank [] = refl
quoted-NotBlank (c ∷ []) = refl
quoted-NotBlank (c ∷ d ∷ text) = refl

parse_if_match-quote : (n : ℕ) → n < 2 ^ 64 → parse_if_match (quote_etag n) ≡ ok (n, true)
unfolding parse_if_match quote_etag
parse_if_match-quote n h =
    let text = format_uint n in
    let size : length (text ++ (b'"' ∷ [])) ≡ length text + 1 = length-append text (b'"' ∷ []) in
    let long : ltb (suc (length text + 1)) 3 ≡ false = ground (arith, format_uint-nonempty n) in
    let cut : suc (length text + 1) - 2 ≡ length text = omega arith in
    let same = (bytes_eq_iff (quoted text) (quoted text)).1 refl in
    rw
      (
        quoted-NotBlank text,
        last-quoted text b'"',
        size,
        long,
        cut,
        take-append (length text) text (b'"' ∷ []) refl,
        parse_uint-format n h,
        same,
      )
      refl

parse_if_match-canonical :
    (value : Bytes) (n : ℕ) → parse_if_match value ≡ ok (n, true) → value ≡ quote_etag n
unfolding parse_if_match
parse_if_match-canonical value n h =
    elim (Option-cases (parse_uint 64 (take (length value - 2) (drop 1 value)))) [
      | inl bad ↦ absurd (ground arith)
      | inr (m, found) ↦ elim (Bool-cases (bytes_eq (quote_etag m) value)) [
        | inl same ↦
            let e : m ≡ n = ground arith in
            rw (← e, (bytes_eq_iff (quote_etag m) value).0 same) refl
        | inr differs ↦ absurd (ground arith)
      ]
    ]

-- ParseIfMatch reads a version, with a header present, from its quoted entity tag and from no other
-- text, for versions that are uint64.
pub parse_if_match_iff :
    (value : Bytes) (n : ℕ)
    → n < 2 ^ 64
    → (parse_if_match value ≡ ok (n, true)) ↔ (value ≡ quote_etag n)
parse_if_match_iff value n h =
    (parse_if_match-canonical value n, λ e. rw (e) (parse_if_match-quote n h))

-- ===== src/Protocol/Etag.antt =====
-- protocol/crypto.go: item versions as entity tags.
pub mod RoundTrip
use bitboxsync_client_go.Prelude.{
  ℕ, Bool, true, false, ◌&&◌, ◌||◌, ◌-◌, not, [], ◌∷◌, ◌++◌, none, some, length, take, drop, leb,
  ltb, ◌==◌, if◌then◌else◌,
}
use bitboxsync_client_go.Prelude.Bytes.{Bytes, bytes_eq}
use bitboxsync_client_go.Result.{Result, ok, err, other}
use bitboxsync_client_go.Protocol.Decimal.{format_uint, parse_uint}

-- unicode.IsSpace on the runes of one, two and three bytes
is_space : ℕ → Bool
is_space a = leb 9 a && leb a 13 || a == 32

is_space_pair : ℕ → ℕ → Bool
is_space_pair a b = a == 0xc2 && (b == 0x85 || b == 0xa0)

is_space_triple : ℕ → ℕ → ℕ → Bool
is_space_triple a b c =
    a == 0xe1 && (b == 0x9a && c == 0x80)
    || a == 0xe2
      && (b == 0x80 && (leb 0x80 c && leb c 0x8a || (leb 0xa8 c && leb c 0xa9) || c == 0xaf))
    || a == 0xe2 && (b == 0x81 && c == 0x9f)
    || a == 0xe3 && (b == 0x80 && c == 0x80)

-- strings.TrimSpace(value) == ""
unfoldable pub is_blank : Bytes → Bool
unfolding is_space is_space_pair is_space_triple
is_blank [] = true
is_blank (a ∷ []) = is_space a
is_blank (a ∷ b ∷ []) = is_space a && is_space b || is_space_pair a b
is_blank (a ∷ b ∷ c ∷ rest) =
    is_space a && is_blank (b ∷ c ∷ rest)
    || is_space_pair a b && is_blank (c ∷ rest)
    || is_space_triple a b c && is_blank rest

abbrev pub quoted : Bytes → Bytes
quoted text = b'"' ∷ (text ++ (b'"' ∷ []))

-- strconv.Quote leaves digits as they are
unfoldable pub quote_etag : ℕ → Bytes
quote_etag version = quoted (format_uint version)

-- the last byte, 0 when there is none
abbrev pub last : Bytes → ℕ
last [] = 0
last (c ∷ []) = c
last (c ∷ d ∷ rest) = last (d ∷ rest)

abbrev pub starts_with : ℕ → Bytes → Bool
starts_with c [] = false
starts_with c (d ∷ rest) = c == d

-- the version, and whether there was one
unfoldable pub parse_if_match : Bytes → Result (ℕ × Bool)
parse_if_match value =
    if is_blank value
    then ok (0, false)
    else if ltb (length value) 3 || not (starts_with b'"' value) || not (last value == b'"')
    then err (other "If-Match must be a quoted decimal version")
    else elim (parse_uint 64 (take (length value - 2) (drop 1 value))) [
      | none ↦ err (other "parse If-Match")
      | some version ↦
          if not (bytes_eq (quote_etag version) value)
          then err (other "If-Match must use canonical ETag encoding")
          else ok (version, true)
    ]

-- ===== src/Protocol/Origin.antt =====
-- protocol/crypto.go: the canonical origin of a server.
pub mod Canonical
pub mod Labels
use bitboxsync_client_go.Prelude.{
  ℕ, Bool, true, false, ◌&&◌, ◌||◌, not, List, [], ◌∷◌, ◌++◌, none, some, length, map, leb, ltb,
  ◌==◌, if◌then◌else◌,
}
use bitboxsync_client_go.Prelude.Bytes.{Bytes, codes, bytes_eq}
use bitboxsync_client_go.Result.{Result, ok, err, other, refuse_if, ◌>>=◌, ◌>>◌}
use bitboxsync_client_go.Protocol.Hex.{to_lower}
use bitboxsync_client_go.Protocol.Crypto.{Crypto}
use bitboxsync_client_go.Protocol.Decimal.{format_uint, parse_uint}
use bitboxsync_client_go.Protocol.Etag.{last, starts_with}
use bitboxsync_client_go.Protocol.Url.{Url, UrlParser}

abbrev pub max_server_origin_length : ℕ
max_server_origin_length = 128

-- a byte that is no ASCII makes a rune that is none
unfoldable pub is_ascii : Bytes → Bool
is_ascii [] = true
is_ascii (ch ∷ rest) = leb ch 0x7f && is_ascii rest

-- strings.Contains(host, "..")
has_double_dot : Bytes → Bool
has_double_dot [] = false
has_double_dot (a ∷ []) = false
has_double_dot (a ∷ b ∷ rest) = a == b'.' && b == b'.' || has_double_dot (b ∷ rest)

-- strings.Split(text, sep) for one byte: the first piece, and the others
abbrev onto_first : Bool → ℕ → Bytes × List Bytes → Bytes × List Bytes
onto_first true c (piece, pieces) = ([], piece ∷ pieces)
onto_first false c (piece, pieces) = (c ∷ piece, pieces)

abbrev split_at : ℕ → Bytes → Bytes × List Bytes
split_at sep [] = ([], [])
split_at sep (c ∷ rest) = onto_first (c == sep) c (split_at sep rest)

abbrev pub split : ℕ → Bytes → List Bytes
split sep text = let (piece, pieces) = split_at sep text in piece ∷ pieces

unfoldable pub is_label_char : ℕ → Bool
is_label_char ch = leb b'a' ch && leb ch b'z' || leb b'0' ch && leb ch b'9' || ch == b'-'

abbrev all_label_chars : Bytes → Bool
all_label_chars [] = true
all_label_chars (ch ∷ rest) = is_label_char ch && all_label_chars rest

-- the body of the loop over the labels
unfoldable pub is_label : Bytes → Bool
is_label label = not (starts_with b'-' label) && (not (last label == b'-') && all_label_chars label)

abbrev all_labels : List Bytes → Bool
all_labels [] = true
all_labels (label ∷ rest) = is_label label && all_labels rest

-- The port as it is written in the origin: nothing for the default one.
unfoldable pub canonical_port : Bytes → Result Bytes
canonical_port port = if length port == 0 then ok [] else elim (parse_uint 16 port) [
  | none ↦ err (other "server origin port must be canonical")
  | some parsed_port ↦
      if parsed_port == 0
      then err (other "server origin port must be canonical")
      else if not (bytes_eq (format_uint parsed_port) port)
      then err (other "server origin port must be canonical")
      else if parsed_port == 443
      then ok []
      else ok port
]

unfoldable pub check_host : Bytes → Result (Unit {0})
unfolding has_double_dot
check_host host = do
  refuse_if (length host == 0 || not (is_ascii host) || not (bytes_eq (map to_lower host) host))
      (other "server origin host must be lowercase ASCII")
  refuse_if (starts_with b'.' host || last host == b'.' || has_double_dot host)
      (other "server origin host must be an IDNA A-label host")
  refuse_if (not (all_labels (split b'.' host)))
      (other "server origin host must be an IDNA A-label host")

-- the scheme, the host, and the port unless it is empty
abbrev pub join_origin : Bytes → Bytes → Bytes → Bytes
join_origin scheme host port =
    scheme ++ (codes "://" ++ (host ++ (if length port == 0 then [] else b':' ∷ port)))

unfoldable pub canonical_of_url : Url → Result Bytes
canonical_of_url parsed = do
  refuse_if (not (bytes_eq parsed.scheme (codes "https"))) (other "server origin scheme")
  refuse_if
      (length parsed.host == 0
        || parsed.has_user
        || not (length parsed.path == 0)
        || not (length parsed.raw_query == 0)
        || not (length parsed.fragment == 0))
      (other "server origin must contain only scheme, host, and optional port")
  check_host parsed.hostname
  port ← canonical_port parsed.port
  let canonical = join_origin parsed.scheme parsed.hostname port
  refuse_if (ltb max_server_origin_length (length canonical))
      (other "server origin exceeds maximum")
  ok canonical

module _ (u : UrlParser) where
  unfoldable pub canonical_server_origin : Bytes → Result Bytes
  canonical_server_origin value = elim (u.parse value) [
    | none ↦ err (other "parse server origin")
    | some parsed ↦ canonical_of_url parsed
  ]

  unfoldable pub server_origin_hash : Crypto → Bytes → Result Bytes
  server_origin_hash c origin = do
    canonical ← canonical_server_origin origin
    refuse_if (not (bytes_eq canonical origin)) (other "server origin must be canonical")
    ok (c.sha256 origin)

-- ===== src/Protocol/Origin/Canonical.antt =====
-- protocol/crypto.go: a canonical origin stays as it is.
use bitboxsync_client_go.Prelude.{
  false, ◌||◌, not, [], some, length, ltb, ◌==◌, ◌≡◌, refl, Bool-cases, Option-cases, inl, inr,
  arith,
}
use bitboxsync_client_go.Prelude.Bytes.{Bytes, codes, bytes_eq, bytes_eq_iff}
use bitboxsync_client_go.Result.{Result, ok}
use bitboxsync_client_go.Result.Steps.{bind_ok, refuse_ok, same_ok, ok_inj}
use bitboxsync_client_go.Protocol.Decimal.{format_uint, parse_uint}
use bitboxsync_client_go.Protocol.Url.{Url, UrlParser}
use bitboxsync_client_go.Protocol.Origin.{
  max_server_origin_length, canonical_port, check_host, join_origin, canonical_of_url,
  canonical_server_origin,
}

-- a URL of this host and port, and of nothing else
pub record IsOrigin (host port : Bytes) (parsed : Url) : Type 0 where
  pub scheme : parsed.scheme ≡ codes "https"
  pub no_user : parsed.has_user ≡ false
  pub some_host : (length parsed.host == 0) ≡ false
  pub same_host : parsed.hostname ≡ host
  pub same_port : parsed.port ≡ port
  pub no_path : parsed.path ≡ []
  pub no_query : parsed.raw_query ≡ []
  pub no_fragment : parsed.fragment ≡ []

-- url.Parse reads a host of letters, digits, hyphens and dots, with a decimal port or none, back from
-- an https URL.
pub record UrlLaws (u : UrlParser) : Type 0 where
  pub parse_origin :
      (host port : Bytes)
      → check_host host ≡ ok tt
      → canonical_port port ≡ ok port
      → (parsed : Url) × (u.parse (join_origin (codes "https") host port) ≡ some parsed)
        × IsOrigin host port parsed

same_port : {p q : Bytes} → p ≡ q → canonical_port p ≡ ok q → canonical_port q ≡ ok q
same_port e h = cc (e, h)

canonical_port_twice : (p : Bytes) {q : Bytes} → canonical_port p ≡ ok q → canonical_port q ≡ ok q
unfolding canonical_port
canonical_port_twice p {q} h = elim (Bool-cases (length p == 0)) [
  | inl empty ↦ let e : [] ≡ q = ground arith in rw (← e) refl
  | inr some_port ↦ elim (Option-cases (parse_uint 16 p)) [
    | inl bad ↦ absurd (ground arith)
    | inr (n, found) ↦ elim (Bool-cases (n == 443)) [
      | inr other' ↦ let e : p ≡ q = ground arith in same_port e h
      | inl default ↦ elim (Bool-cases (bytes_eq (format_uint n) p)) [
        | inl same ↦ let e : [] ≡ q = ground arith in rw (← e) refl
        | inr differs ↦ absurd (ground arith)
      ]
    ]
  ]
]

of_origin :
    (host port : Bytes) (parsed : Url)
    → IsOrigin host port parsed
    → check_host host ≡ ok tt
    → canonical_port port ≡ ok port
    → ltb max_server_origin_length (length (join_origin (codes "https") host port)) ≡ false
    → canonical_of_url parsed ≡ ok (join_origin (codes "https") host port)
unfolding canonical_of_url
of_origin host port parsed o hh hp short =
    let https = (bytes_eq_iff (codes "https") (codes "https")).1 refl in
    rw
      (
        o.scheme, o.no_user, o.some_host, o.same_host, o.same_port, o.no_path, o.no_query,
        o.no_fragment, https, hh, hp, short,
      )
      refl

with_scheme :
    {s s' : Bytes} (host port : Bytes) {origin : Bytes}
    → s ≡ s'
    → ltb max_server_origin_length (length (join_origin s host port)) ≡ false
    → join_origin s host port ≡ origin
    → (ltb max_server_origin_length (length (join_origin s' host port)) ≡ false)
      × (join_origin s' host port ≡ origin)
with_scheme host port e short made = (rw (← e) short, rw (← e) made)

url_parts :
    (parsed : Url) {origin : Bytes}
    → canonical_of_url parsed ≡ ok origin
    → (port : Bytes) × (check_host parsed.hostname ≡ ok tt)
      × (canonical_port port ≡ ok port)
      × (ltb max_server_origin_length (length (join_origin (codes "https") parsed.hostname port))
          ≡ false)
      × (join_origin (codes "https") parsed.hostname port ≡ origin)
unfolding canonical_of_url
url_parts parsed {origin} h =
    let (https, h1) = same_ok parsed.scheme (codes "https") _ _ h in
    let (only, h2) =
      refuse_ok
        (length parsed.host == 0
          || parsed.has_user
          || not (length parsed.path == 0)
          || not (length parsed.raw_query == 0)
          || not (length parsed.fragment == 0))
        _ _ h1 in
    let (done, host, h3) = bind_ok (check_host parsed.hostname) _ h2 in
    let (port, hp, h4) = bind_ok (canonical_port parsed.port) _ h3 in
    let (short, h5) =
      refuse_ok
        (ltb max_server_origin_length (length (join_origin parsed.scheme parsed.hostname port))) _ _
        h4 in
    let (short', made) = with_scheme parsed.hostname port https short (ok_inj h5) in
    (port, host, canonical_port_twice parsed.port hp, short', made)

module _ (u : UrlParser) where
  from_url :
      (value : Bytes) {parsed : Url} {r : Result Bytes}
      → u.parse value ≡ some parsed
      → canonical_of_url parsed ≡ r
      → canonical_server_origin u value ≡ r
  unfolding canonical_server_origin
  from_url value found h = rw (canonical_server_origin, found) h

  itself :
      {a b : Bytes}
      → a ≡ b
      → canonical_server_origin u a ≡ ok a
      → canonical_server_origin u b ≡ ok b
  itself e h = rw (← e) h

-- What CanonicalServerOrigin returns it returns again when it is given it, for a url.Parse that reads
-- hosts and ports back: an origin that was made canonical for an invite is accepted in a join request.
pub canonical_server_origin_twice :
    (u : UrlParser) (value : Bytes) {origin : Bytes}
    → UrlLaws u
    → canonical_server_origin u value ≡ ok origin
    → canonical_server_origin u origin ≡ ok origin
unfolding canonical_server_origin
canonical_server_origin_twice u value {origin} laws h = elim (Option-cases (u.parse value)) [
  | inl bad ↦ absurd (ground arith)
  | inr (parsed, found) ↦
      let of_value : canonical_of_url parsed ≡ ok origin = ground arith in
      let (port, hh, hp, short, made) = url_parts parsed of_value in
      let (again, read, o) = laws.parse_origin parsed.hostname port hh hp in
      itself u made (
        from_url u (join_origin (codes "https") parsed.hostname port) read
          (of_origin parsed.hostname port again o hh hp short))
]

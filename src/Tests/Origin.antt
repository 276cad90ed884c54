-- ===== src/Tests/Origin.antt =====
-- A parser of origins, and canonical origins at a concrete input.
use bitboxsync_client_go.Prelude.{
  ℕ, Bool, true, false, [], ◌∷◌, ◌++◌, none, some, length, ◌==◌, ◌≡◌, refl, if◌then◌else◌, arith,
}
use bitboxsync_client_go.Prelude.Bytes.{Bytes, codes, bytes_eq}
use bitboxsync_client_go.Result.{ok}
use bitboxsync_client_go.Protocol.Hex.{to_lower}
use bitboxsync_client_go.Protocol.Decimal.{parse_uint, format_uint}
use bitboxsync_client_go.Protocol.Url.{Url, UrlParser}
use bitboxsync_client_go.Protocol.Secrets.{contains}
use bitboxsync_client_go.Protocol.Origin.{
  is_ascii, is_label, is_label_char, check_host, canonical_port, canonical_of_url,
  canonical_server_origin,
}
use bitboxsync_client_go.Protocol.Origin.Labels.{check_host-no_colon}
use bitboxsync_client_go.Protocol.Origin.Canonical.{UrlLaws, canonical_server_origin_twice}

-- what stands before the first colon, and after it
abbrev put : Bool → ℕ → Bytes → Bytes × Bytes → Bytes × Bytes
put true c rest parts = ([], rest)
put false c rest (host, port) = (c ∷ host, port)

abbrev cut : Bytes → Bytes × Bytes
cut [] = ([], [])
cut (c ∷ rest) = put (c == b':') c rest (cut rest)

abbrev after_scheme : Bytes → Bytes
after_scheme (a ∷ b ∷ c ∷ d ∷ e ∷ f ∷ g ∷ h ∷ rest) = rest
after_scheme _ = []

abbrev url_of : Bytes × Bytes → Url
url_of (host, port) = record {
  scheme = codes "https";
  has_user = false;
  host = 1 ∷ [];
  hostname = host;
  port = port;
  path = [];
  raw_query = [];
  fragment = [];
  escaped_fragment = [];
}

abbrev origin_urls : UrlParser
origin_urls = record {
  parse = λ text. some (url_of (cut (after_scheme text)));
  parse_query = λ text. none;
}

cut-join :
    (host port : Bytes)
    → contains b':' host ≡ false
    → cut (host ++ (if length port == 0 then [] else b':' ∷ port)) ≡ (host, port)
cut-join [] [] h = refl
cut-join [] (p ∷ port) h =
    let some_port : (length (p ∷ port) == 0) ≡ false = ground arith in rw (some_port) refl
cut-join (c ∷ host) port h =
    let no_colon : (c == b':') ≡ false = ground arith in
    rw (no_colon, cut-join host port (ground arith)) refl

origin_urls-UrlLaws : UrlLaws origin_urls
origin_urls-UrlLaws = record {
  parse_origin = λ host port hh hp.
      let cuts = cut-join host port (check_host-no_colon host hh) in
      (
        url_of (host, port),
        rw (cuts) refl,
        record {
          scheme = refl;
          no_user = refl;
          some_host = refl;
          same_host = refl;
          same_port = refl;
          no_path = refl;
          no_query = refl;
          no_fragment = refl;
        },
      );
}

abbrev with_default_port : Bytes
with_default_port = codes "https://a.b-c:443"

without_port : canonical_server_origin origin_urls with_default_port ≡ ok (codes "https://a.b-c")
unfolding canonical_server_origin canonical_of_url bytes_eq check_host is_ascii to_lower is_label
    is_label_char canonical_port parse_uint format_uint
without_port = refl

canonical_server_origin_twice_example :
    canonical_server_origin origin_urls (codes "https://a.b-c") ≡ ok (codes "https://a.b-c")
canonical_server_origin_twice_example =
    canonical_server_origin_twice origin_urls with_default_port origin_urls-UrlLaws without_port

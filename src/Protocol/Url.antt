-- ===== src/Protocol/Url.antt =====
-- net/url, as a parameter: the parts of a URL that the client reads.
use bitboxsync_client_go.Prelude.{Bool, List, Option}
use bitboxsync_client_go.Prelude.Bytes.{Bytes}
use bitboxsync_client_go.Types.{Dict}

pub record Url : Type 0 where
  pub scheme : Bytes
  pub has_user : Bool
  pub host : Bytes
  -- Hostname() and Port()
  pub hostname : Bytes
  pub port : Bytes
  pub path : Bytes
  pub raw_query : Bytes
  pub fragment : Bytes
  -- EscapedFragment()
  pub escaped_fragment : Bytes

pub record UrlParser : Type 0 where
  -- url.Parse
  pub parse : Bytes → Option Url
  -- url.ParseQuery; the map has one entry for each key
  pub parse_query : Bytes → Option (Dict (List Bytes))

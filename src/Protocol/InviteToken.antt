-- ===== src/Protocol/InviteToken.antt =====
-- protocol/crypto.go: the URI of a namespace invite.
use bitboxsync_client_go.Prelude.{
  Bool, true, false, ◌&&◌, ◌||◌, not, List, [], ◌∷◌, ◌++◌, Option, none, some, length, ◌==◌,
  if◌then◌else◌,
}
use bitboxsync_client_go.Prelude.Bytes.{Bytes, codes, bytes_eq}
use bitboxsync_client_go.Prelude.Int.{ℤ, pos, lez, eqz}
use bitboxsync_client_go.Types.{Dict, get}
use bitboxsync_client_go.Result.{
  Result, ok, err, other, unsupported_version, refuse_if, ◌>>=◌, ◌>>◌,
}
use bitboxsync_client_go.Api.Invites.{NamespaceInviteToken}
use bitboxsync_client_go.Protocol.Crypto.{Crypto}
use bitboxsync_client_go.Protocol.Decimal.{format_int, parse_int}
use bitboxsync_client_go.Protocol.Hex.{validate_namespace_id, validate_invite_id}
use bitboxsync_client_go.Protocol.Origin.{canonical_server_origin, split}
use bitboxsync_client_go.Protocol.Secrets.{decode_base64url_exact, invite_secret_length}
use bitboxsync_client_go.Protocol.Url.{UrlParser}

abbrev pub namespace_join_request_version : ℤ
namespace_join_request_version = pos 1

-- strings.CutPrefix: the text after the prefix, if it has it
unfoldable pub cut_prefix : Bytes → Bytes → Option Bytes
cut_prefix [] text = some text
cut_prefix (p ∷ ps) [] = none
cut_prefix (p ∷ ps) (c ∷ cs) = if p == c then cut_prefix ps cs else none

unfoldable pub has_prefix : Bytes → Bytes → Bool
unfolding cut_prefix
has_prefix text prefix = elim (cut_prefix prefix text) [ none ↦ false | some rest ↦ true ]

-- strings.TrimPrefix(canonical, "https://")
unfoldable pub encoded_server_origin : Bytes → Bytes
unfolding cut_prefix
encoded_server_origin canonical = elim (cut_prefix (codes "https://") canonical) [
  | none ↦ canonical
  | some rest ↦ rest
]

abbrev any_empty : List Bytes → Bool
any_empty [] = false
any_empty (component ∷ rest) = length component == 0 || any_empty rest

unfoldable pub reject_empty_invite_uri_components : Bytes → Result (Unit {0})
reject_empty_invite_uri_components raw = do
  refuse_if (length raw == 0) (other "namespace invite URI must include fields")
  refuse_if (any_empty (split b'&' raw)) (other "empty components")

abbrev only : Option (List Bytes) → Option Bytes
only (some (value ∷ [])) = some value
only _ = none

unfoldable pub single_invite_uri_value : Dict (List Bytes) → Bytes → Option Bytes
single_invite_uri_value values name = only (get name values)

abbrev has_single : Option Bytes → Bool
has_single none = false
has_single (some value) = true

-- `length values` counts the keys of the map
unfoldable pub exact_invite_uri_fields : Dict (List Bytes) → List Bytes → Bool
exact_invite_uri_fields values names = length values == length names && all_single names
  where
    all_single : List Bytes → Bool
    all_single [] = true
    all_single (name ∷ rest) = has_single (single_invite_uri_value values name) && all_single rest

abbrev or_error : Option Bytes → Result Bytes
or_error none = err (other "namespace invite URI must include one value")
or_error (some value) = ok value

abbrev pub invite_uri_prefix : Bytes
invite_uri_prefix = codes "bitboxsync://join-namespace?"

module _ (u : UrlParser) (c : Crypto) where
  unfoldable pub encode_namespace_invite_token : NamespaceInviteToken → Result Bytes
  encode_namespace_invite_token token = do
    refuse_if (not (eqz token.version namespace_join_request_version)) unsupported_version
    server_origin ← canonical_server_origin u token.server_origin
    validate_namespace_id token.namespace_id
    validate_invite_id token.invite_id
    refuse_if (lez token.expires_at (pos 0)) (other "invite expiry must be positive")
    invite_secret ← decode_base64url_exact c "inviteSecret" token.invite_secret invite_secret_length
    ok (
        invite_uri_prefix
        ++ (codes "v=1&s="
            ++ (encoded_server_origin server_origin
                ++ (codes "&n="
                    ++ (token.namespace_id
                        ++ (codes "&i="
                            ++ (token.invite_id
                                ++ (codes "&e="
                                    ++ (format_int token.expires_at
                                        ++ (codes "#k=" ++ token.invite_secret))))))))))

  -- the server origin of the query
  parse_server : Bytes → Result Bytes
  parse_server server_value = do
    server_origin ← canonical_server_origin u (codes "https://" ++ server_value)
    refuse_if (not (bytes_eq server_value (encoded_server_origin server_origin)))
        (other "namespace invite URI must use canonical server origin encoding")
    ok server_origin

  parse_expiry : Bytes → Result ℤ
  parse_expiry expires_value = elim (parse_int 64 expires_value) [
    | none ↦ err (other "parse invite expiry")
    | some expires_at ↦
        if lez expires_at (pos 0)
        then err (other "invite expiry must be positive")
        else if not (bytes_eq expires_value (format_int expires_at))
        then err (other "namespace invite URI must use canonical expiry")
        else ok expires_at
  ]

  abbrev or_unparsed : {A : Type 0} → Option A → Result A
  or_unparsed none = err (other "parse invite")
  or_unparsed (some a) = ok a

  -- the invite secret of the fragment
  parse_fragment : Bytes → Result Bytes
  parse_fragment raw_fragment = do
    reject_empty_invite_uri_components raw_fragment
    fragment ← or_unparsed (u.parse_query raw_fragment)
    refuse_if (not (exact_invite_uri_fields fragment (codes "k" ∷ [])))
        (other "namespace invite URI must use canonical fragment fields")
    invite_secret ← or_error (single_invite_uri_value fragment (codes "k"))
    raw ← decode_base64url_exact c "inviteSecret" invite_secret invite_secret_length
    ok invite_secret

  -- the fields of the query, then the fragment
  unfoldable pub parse_fields : Dict (List Bytes) → Bytes → Result NamespaceInviteToken
  unfolding parse_server parse_expiry parse_fragment
  parse_fields q raw_fragment = do
    version ← or_error (single_invite_uri_value q (codes "v"))
    refuse_if (not (bytes_eq version (codes "1"))) unsupported_version
    server_value ← or_error (single_invite_uri_value q (codes "s"))
    server_origin ← parse_server server_value
    namespace_id ← or_error (single_invite_uri_value q (codes "n"))
    validate_namespace_id namespace_id
    invite_id ← or_error (single_invite_uri_value q (codes "i"))
    validate_invite_id invite_id
    expires_value ← or_error (single_invite_uri_value q (codes "e"))
    expires_at ← parse_expiry expires_value
    invite_secret ← parse_fragment raw_fragment
    ok (record {
      version = namespace_join_request_version;
      server_origin = server_origin;
      namespace_id = namespace_id;
      invite_id = invite_id;
      expires_at = expires_at;
      invite_secret = invite_secret;
    })

  unfoldable pub parse_namespace_invite_token : Bytes → Result NamespaceInviteToken
  parse_namespace_invite_token value = do
    refuse_if (not (has_prefix value (codes "bitboxsync:")))
        (other "unsupported namespace invite URI")
    url ← or_unparsed (u.parse value)
    refuse_if
        (not (bytes_eq url.scheme (codes "bitboxsync"))
          || not (bytes_eq url.host (codes "join-namespace"))
          || not (length url.path == 0))
        (other "unsupported namespace invite URI")
    reject_empty_invite_uri_components url.raw_query
    q ← or_unparsed (u.parse_query url.raw_query)
    refuse_if
        (not (
          exact_invite_uri_fields q
            (codes "v" ∷ codes "s" ∷ codes "n" ∷ codes "i" ∷ codes "e" ∷ [])))
        (other "namespace invite URI must use canonical query fields")
    parse_fields q url.escaped_fragment

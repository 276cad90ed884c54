-- ===== src/Tests/World.antt =====
-- A small world: a server, a driver and a keystore that answer every call.
use bitboxsync_client_go.Prelude.{
  ◌&&◌, length, length-append, take, take-append, sym, ap, ◌+◌, ◌-◌, ◌*◌, Option, Bool-cases,
  if◌then◌else◌, ℕ, ◌<◌, ◌^◌, true, false, List, [], ◌∷◌, ◌++◌, none, some, ltb, ltb→lt, inl, inr,
  ◌≡◌, refl, All, arith,
}
use bitboxsync_client_go.Prelude.Bytes.{codes, put_uint64, bytes_eq, bytes_eq_iff, Bytes}
use bitboxsync_client_go.Result.{◌>>◌, Result, ok, err, other}
use bitboxsync_client_go.Types.{NamespaceState, ItemState, new_item}
use bitboxsync_client_go.Api.{Server, Identity}
use bitboxsync_client_go.Client.{expected_version}
use bitboxsync_client_go.Protocol.Crypto.{Crypto, CryptoLaws, WrapLaws}
use bitboxsync_client_go.Protocol.Url.{UrlParser}
use bitboxsync_client_go.Protocol.Item.{build_item_aad_from_bytes}
use bitboxsync_client_go.Engine.State.{Engine, Database, RegisteredCollection, Tables, State}
use bitboxsync_client_go.Sync.Safe.{
  Start, IsNamed, IsStored, FitsText, IsValid, DatabaseLaws, HmacLaws, item_numbers, item_texts,
}
use bitboxsync_client_go.Protocol.Hex.{encode_to_string}
use bitboxsync_client_go.Keys.{join_key_parts, compose_logical_key, collection_registry_key}

-- `d` once for each element of the eight, four times over
abbrev pub thirty_two : ℕ → Bytes
thirty_two d =
    d ∷ d ∷ d ∷ d ∷ d ∷ d ∷ d ∷ d ∷ d ∷ d ∷ d ∷ d ∷ d ∷ d ∷ d ∷ d ∷ d ∷ d ∷ d ∷ d ∷ d ∷ d ∷ d ∷ d
    ∷ d ∷ d ∷ d ∷ d ∷ d ∷ d ∷ d ∷ d ∷ []

abbrev pub twenty_four : ℕ → Bytes
twenty_four d =
    d ∷ d ∷ d ∷ d ∷ d ∷ d ∷ d ∷ d ∷ d ∷ d ∷ d ∷ d ∷ d ∷ d ∷ d ∷ d ∷ d ∷ d ∷ d ∷ d ∷ d ∷ d ∷ d ∷ d
    ∷ []

abbrev pub sixteen : ℕ → Bytes
sixteen d = d ∷ d ∷ d ∷ d ∷ d ∷ d ∷ d ∷ d ∷ d ∷ d ∷ d ∷ d ∷ d ∷ d ∷ d ∷ d ∷ []

-- the logical key of the one item, and a digest of 32 bytes
abbrev pub only_key : Bytes
only_key = compose_logical_key (1 ∷ []) (2 ∷ [])

abbrev digest : Bytes → Bytes
digest m = if bytes_eq m only_key then thirty_two 17 else thirty_two 18

length-digest : (m : Bytes) → length (digest m) ≡ 32
length-digest m = elim (Bool-cases (bytes_eq m only_key)) [
  | inl same ↦ rw same refl
  | inr other' ↦ rw other' refl
]

abbrev or_nothing : Option (Bytes × Bytes) → Bytes
or_nothing none = []
or_nothing (some (enc, ciphertext)) = enc

abbrev or_empty : Option (Bytes × Bytes) → Bytes
or_empty none = []
or_empty (some (enc, ciphertext)) = ciphertext

sized :
    (plaintext : Bytes) {ciphertext : Bytes}
    → ciphertext ≡ plaintext ++ sixteen 0
    → length ciphertext ≡ length plaintext + 16
sized plaintext e = rw (e) (length-append plaintext (sixteen 0))

opened :
    (plaintext : Bytes) {ciphertext : Bytes}
    → ciphertext ≡ plaintext ++ sixteen 0
    → some (take (length ciphertext - 16) ciphertext) ≡ some plaintext
opened plaintext {ciphertext} e =
    let cut : length ciphertext - 16 ≡ length plaintext = omega (arith, sized plaintext e) in
    rw (cut, e, take-append (length plaintext) plaintext (sixteen 0) refl) refl

-- sealing that hides nothing, and a base64 that codes nothing
abbrev pub plain_crypto : Crypto
plain_crypto = record {
  sha256 = λ m. m;
  hmac_sha256 = λ key m. digest m;
  hkdf_key = λ secret info size. thirty_two 0;
  seal = λ key nonce plaintext aad. plaintext;
  unseal = λ key nonce ciphertext aad. some ciphertext;
  encode_base64 = λ raw. raw;
  decode_base64 = λ text. some text;
  encode_base64url = λ raw. raw;
  decode_base64url = λ text. some text;
  ed25519_public = λ private. thirty_two 1;
  ed25519_sign = λ private m. thirty_two 2 ++ thirty_two 3;
  ed25519_verify = λ public m signature. true;
  x25519_public = λ private. thirty_two 4;
  x25519_new_public_key = λ raw. some raw;
  hpke_seal = λ seed public info plaintext. some (thirty_two 0, plaintext ++ sixteen 0);
  hpke_open = λ private info enc ciphertext. some (take (length ciphertext - 16) ciphertext);
}

pub plain_laws : CryptoLaws plain_crypto
plain_laws = record { unseal-seal = λ key nonce plaintext aad. refl; decode-encode = λ raw. refl }

pub plain-WrapLaws : WrapLaws plain_crypto
plain-WrapLaws = record {
  hpke_open-seal = λ seed private info plaintext enc ciphertext h.
      opened plaintext (sym (ap (λ o. or_empty o) h));
  hpke_lengths = λ seed public info plaintext enc ciphertext h.
      (ap (λ o. length (or_nothing o)) (sym h), sized plaintext (sym (ap (λ o. or_empty o) h)));
}

-- sixteen bytes 0x11 in hexadecimal, and thirty-two
abbrev pub namespace_hex : Bytes
namespace_hex = thirty_two b'1'

abbrev pub item_hex : Bytes
item_hex = thirty_two b'1' ++ thirty_two b'1'

abbrev pub token : Bytes
token = 7 ∷ []

abbrev small_server : Server Unit
small_server = record {
  list_namespaces = λ t x. (
    ok (record { namespace_id = namespace_hex; kind = codes "default"; namespace_head = 3 } ∷ []),
    x,
  );
  get_namespace_items = λ t n x.
      (ok (record { namespace_id = n; namespace_head = 3; items = (item_hex, 5) ∷ [] }), x);
  get_item = λ t n i x. (
    ok (record {
      namespace_id = n;
      item_id = i;
      version = 5;
      nonce = twenty_four 0;
      aad = build_item_aad_from_bytes (sixteen 17) (thirty_two 17) 5;
      ciphertext = 66 ∷ [];
    }),
    x,
  );
  put_item = λ t n i req if_match x.
      (ok (record { namespace_id = n; item_id = i; version = expected_version if_match }), x);
  get_wrapped_dek = λ t n k x. (ok ([], n, k), x);
  challenge = λ purpose x. (ok (record { challenge = thirty_two 9; spam_control_kind = [] }), x);
  login = λ req x. (
    ok (record {
      kind = req.kind;
      access_token = token;
      expires_at = 1000;
      default_namespace_id = none;
    }),
    x,
  );
  refresh =
      λ t req x. (ok (record { kind = req.kind; access_token = token; expires_at = 1000 }), x);
  watch_namespaces = λ t heads x. (ok ([], true), x);
  sensitive_action_challenge = λ action hash x.
      (ok (record { challenge = thirty_two 9; spam_control_kind = codes "none" }), x);
  revoke_all_tokens = λ t req x. (ok tt, x);
  get_default_namespace =
      λ t x. (ok (record { namespace_id = namespace_hex; kind = codes "default" }), x);
  ensure_default_namespace = λ t req x. (
    ok (record {
      namespace_id = req.proposed_namespace_id;
      kind = codes "default";
      wrapped_dek = req.wrapped_dek;
      created = true;
    }),
    x,
  );
  create_shared_namespace = λ t req x.
      (ok (record { namespace_id = req.namespace_id; kind = codes "shared"; created = true }), x);
  get_members = λ t n x. (ok (record { namespace_id = n; members = [] }), x);
  create_namespace_invite = λ t n req x. (
    ok (record {
      namespace_id = n;
      invite_id = req.invite_id;
      expires_at = req.expires_at;
      max_accepted = req.max_accepted;
    }),
    x,
  );
  list_namespace_invites = λ t n x. (ok (record { namespace_id = n; invites = [] }), x);
  revoke_namespace_invite =
      λ t n i x. (ok (record { namespace_id = n; invite_id = i; revoked = true }), x);
  submit_namespace_join_request = λ t n i req x. (
    ok (record {
      namespace_id = n;
      invite_id = i;
      requester_kind = req.join_request.kind;
      requester_key_id = req.join_request.key_id;
      join_request_hash = item_hex;
      status = codes "pending";
    }),
    x,
  );
  list_namespace_join_requests = λ t n x. (ok (record { namespace_id = n; requests = [] }), x);
  approve_namespace_join_request = λ t n k h req x. (
    ok (record {
      namespace_id = n;
      member_kind = codes "keystore";
      member_key_id = k;
      join_request_hash = h;
    }),
    x,
  );
  reject_namespace_join_request = λ t n k h x. (
    ok (record { namespace_id = n; requester_key_id = k; join_request_hash = h; rejected = true }),
    x,
  );
}

-- one server: every text is a URL of it, and no query has fields
abbrev pub small_origin : Bytes
small_origin = codes "https://a.b"

abbrev pub small_urls : UrlParser
small_urls = record {
  parse = λ text. some (record {
    scheme = codes "https";
    has_user = false;
    host = codes "a.b";
    hostname = codes "a.b";
    port = [];
    path = [];
    raw_query = [];
    fragment = [];
    escaped_fragment = [];
  });
  parse_query = λ text. some [];
}

abbrev small_identity : Identity Unit
small_identity = record {
  kind = 1 ∷ [];
  auth_public_key = [];
  wrap_public_key = [];
  sign_login_intent = λ c x. (ok [], x);
  sign_refresh_intent = λ c x. (ok [], x);
  sign_revoke_all_tokens_intent = λ c x. (ok [], x);
  sign_create_namespace_invite_intent = λ c n i h t m x. (ok [], x);
  sign_namespace_join_request_intent = λ n i o t x. (ok [], x);
  attest = λ c x. (ok [], x);
  unwrap_namespace_dek = λ n w x. (ok (thirty_two 3), x);
}

abbrev pub fitting : List ℕ → Result (Unit {0})
fitting [] = ok tt
fitting (n ∷ ns) =
    if ltb n (2 ^ 63) then fitting ns else err (other "uint64 values with high bit set")

abbrev pub short_texts : List Bytes → Result (Unit {0})
short_texts [] = ok tt
short_texts (t ∷ ts) =
    if ltb (length t) (2 ^ 31) then short_texts ts else err (other "string or blob too big")

-- a statement with three numbers saves an item: that of the one logical key is taken
abbrev pub known : List ℕ → List Bytes → Result (Unit {0})
known (a ∷ b ∷ c ∷ []) (k ∷ n ∷ collection ∷ key ∷ i ∷ []) =
    if bytes_eq collection (1 ∷ []) && bytes_eq key (2 ∷ []) then ok tt else err (other "disk full")
known _ _ = ok tt

abbrev pub OnlyName : Bytes → Bytes → Bytes → Type 0
OnlyName id collection key = (collection ≡ 1 ∷ []) × (key ≡ 2 ∷ [])

abbrev small_database : Database Unit
small_database = record {
  exec = λ args texts x. (known args texts >> (fitting args >> short_texts texts), x);
  query = λ x. (ok tt, x);
}

fitting-All : (args : List ℕ) → fitting args ≡ ok tt → All (λ n. n < 2 ^ 63) args
fitting-All [] h = tt
fitting-All (n ∷ ns) h = elim (Bool-cases (ltb n (2 ^ 63))) [
  | inl fits ↦ (ltb→lt n (2 ^ 63) fits, fitting-All ns (ground arith))
  | inr over ↦ absurd (ground arith)
]

short_texts-All : (ts : List Bytes) → short_texts ts ≡ ok tt → All FitsText ts
short_texts-All [] h = tt
short_texts-All (t ∷ ts) h = elim (Bool-cases (ltb (length t) (2 ^ 31))) [
  | inl fits ↦ (ltb→lt (length t) (2 ^ 31) fits, short_texts-All ts (ground arith))
  | inr over ↦ absurd (ground arith)
]

-- both parts of a chain that succeeds do
both : (a b : Result (Unit {0})) → a >> b ≡ ok tt → (a ≡ ok tt) × (b ≡ ok tt)
both (ok _) b h = (refl, h)
both (err x) b h = absurd (cc)

saved_name :
    (row : ItemState) (rest : Result (Unit {0}))
    → known (item_numbers row) (item_texts row) >> rest ≡ ok tt
    → OnlyName row.item_id row.collection row.key
saved_name row rest h = elim (Bool-cases (bytes_eq row.collection (1 ∷ []))) [
  | inr other' ↦ absurd (ground arith)
  | inl a ↦ elim (Bool-cases (bytes_eq row.key (2 ∷ []))) [
    | inr other' ↦ absurd (ground arith)
    | inl b ↦ ((bytes_eq_iff row.collection _).0 a, (bytes_eq_iff row.key _).0 b)
  ]
]

abbrev pub small_engine : Engine Unit
small_engine = record {
  key_id = 5 ∷ [];
  key_id_raw = 5 ∷ [];
  refresh_skew = 10;
  invite_ttl = 600 * 1000000000;
  crypto = plain_crypto;
  urls = small_urls;
  server = small_server;
  identity = small_identity;
  database = small_database;
  now = λ x. (100, x);
  random = λ n x. (ok (twenty_four 0), x);
}

abbrev pub small_namespace : NamespaceState
small_namespace = record {
  key_id = 5 ∷ [];
  namespace_id = namespace_hex;
  kind = codes "default";
  namespace_head = 2;
  active_scope_hash = [];
  dek = thirty_two 3;
  updated_at = 1;
}

-- a clean item at version 4
abbrev pub clean_item : ItemState
clean_item = record (new_item (5 ∷ []) namespace_hex (1 ∷ []) (2 ∷ []) item_hex) {
  version = 4;
  base_version = 4;
  base_value = 65 ∷ [];
  updated_at = 1;
}

pub clean_item-IsValid : IsValid clean_item
clean_item-IsValid = ground arith

pub clean_item-IsNamed : IsNamed plain_crypto clean_item
unfolding encode_to_string compose_logical_key join_key_parts put_uint64 bytes_eq
clean_item-IsNamed = record { map_key = []; named = refl }

abbrev pub one_item : Tables
one_item = record { identities = []; namespaces = small_namespace ∷ []; items = clean_item ∷ [] }

-- what a sync of the small engine starts from
abbrev pub from : Start
from = record { tables = one_item; crypto = plain_crypto; in_play = OnlyName }

pub small_laws : DatabaseLaws from small_database
small_laws = record {
  exec_high_bit = λ args texts x h.
      let fits = (both (known args texts) (fitting args >> short_texts texts) h).1 in
      fitting-All args (both (fitting args) (short_texts texts) fits).0;
  exec_long_text = λ args texts x h.
      let fits = (both (known args texts) (fitting args >> short_texts texts) h).1 in
      short_texts-All texts (both (fitting args) (short_texts texts) fits).1;
  exec_in_play = λ row x h. saved_name row _ h;
  query_error = λ x r h. absurd (cc);
}

pub small-HmacLaws : HmacLaws from
small-HmacLaws = record {
  hmac_length = λ key m. length-digest m;
  hmac_collision_free = λ k k' c c' key key' (a, b) (a', b') h. rw (a, b, a', b') refl;
}

pub clean_item-IsStored : IsStored from clean_item
clean_item-IsStored =
    (clean_item-IsValid, omega arith, clean_item-IsNamed, (omega arith, omega arith, (refl, refl)))

-- a collection whose backend holds the clean item's base value
abbrev pub small_collection : RegisteredCollection Unit
small_collection = record {
  namespace_id = namespace_hex;
  name = 1 ∷ [];
  keys = λ x. (ok ((2 ∷ []) ∷ []), x);
  snapshot = λ x. (ok ((2 ∷ [], 65 ∷ []) ∷ []), x);
  get = λ key x. (ok (65 ∷ []), x);
  set = λ key value x. (ok tt, x);
  set_if_current = λ key current found value x. (ok true, x);
  merge_bytes = λ key base local remote x. (ok (local, false), x);
}

abbrev pub start : State Unit
start = record {
  tables = one_item;
  identity_state = record {
    key_id = 5 ∷ [];
    kind = 1 ∷ [];
    access_token = token;
    token_expiry = 1000;
    default_namespace_id = [];
    updated_at = 1;
  };
  collections = (collection_registry_key namespace_hex (1 ∷ []), small_collection) ∷ [];
  closed = false;
  events_closed = false;
  activity_seq = 0;
  events = [];
  outside = tt;
}

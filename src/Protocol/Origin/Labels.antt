-- ===== src/Protocol/Origin/Labels.antt =====
-- protocol/crypto.go: the labels of a host name, and what a checked host holds.
use bitboxsync_client_go.Prelude.{
  ℕ, Bool, true, false, ◌&&◌, ◌||◌, not, List, [], ◌∷◌, length, map, ◌==◌, ◌≡◌, refl, Bool-cases,
  inl, inr, arith,
}
use bitboxsync_client_go.Prelude.Bytes.{Bytes, bytes_eq}
use bitboxsync_client_go.Result.{ok}
use bitboxsync_client_go.Result.Steps.{refuse_ok, passed}
use bitboxsync_client_go.Protocol.Hex.{to_lower}
use bitboxsync_client_go.Protocol.Etag.{last, starts_with}
use bitboxsync_client_go.Protocol.Secrets.{contains}
use bitboxsync_client_go.Protocol.Origin.{
  split, split_at, onto_first, is_label_char, all_label_chars, is_label, all_labels, is_ascii,
  has_double_dot, check_host,
}

abbrev every_piece : List Bytes → Bool
every_piece [] = true
every_piece (p ∷ ps) = all_label_chars p && every_piece ps

abbrev of_chars : Bytes × List Bytes → Bool
of_chars (piece, pieces) = all_label_chars piece && every_piece pieces

label-chars : (label : Bytes) → is_label label ≡ true → all_label_chars label ≡ true
unfolding is_label
label-chars label h = ground arith

labels-chars : (ps : List Bytes) → all_labels ps ≡ true → every_piece ps ≡ true
labels-chars [] h = refl
labels-chars (p ∷ ps) h =
    let first : is_label p ≡ true = ground arith in
    let others : all_labels ps ≡ true = ground arith in
    rw (label-chars p first, labels-chars ps others) refl

colon_no_label : (c : ℕ) → is_label_char c ≡ true → (b':' == c) ≡ false
unfolding is_label_char
colon_no_label c h = ground arith

onto_first-false :
    (c : ℕ) (parts : Bytes × List Bytes)
    → of_chars (onto_first false c parts) ≡ true
    → (is_label_char c ≡ true) × (of_chars parts ≡ true)
onto_first-false c (piece, pieces) h = (ground arith, ground arith)

onto_first-true :
    (c : ℕ) (parts : Bytes × List Bytes)
    → of_chars (onto_first true c parts) ≡ true
    → of_chars parts ≡ true
onto_first-true c (piece, pieces) h = h

with_test :
    {t b : Bool} (c : ℕ) (parts : Bytes × List Bytes)
    → t ≡ b
    → of_chars (onto_first t c parts) ≡ true
    → of_chars (onto_first b c parts) ≡ true
with_test c parts e h = cc (e, h)

no_colon : (host : Bytes) → of_chars (split_at b'.' host) ≡ true → contains b':' host ≡ false
no_colon [] h = refl
no_colon (c ∷ host) h = elim (Bool-cases (c == b'.')) [
  | inl dot ↦
      let h1 : of_chars (onto_first true c (split_at b'.' host)) ≡ true =
        with_test c (split_at b'.' host) dot h in
      let rest = no_colon host (onto_first-true c (split_at b'.' host) h1) in
      let other' : (b':' == c) ≡ false = ground arith in rw (other', rest) refl
  | inr letter ↦
      let h1 : of_chars (onto_first false c (split_at b'.' host)) ≡ true =
        with_test c (split_at b'.' host) letter h in
      let (good, of_rest) = onto_first-false c (split_at b'.' host) h1 in
      rw (colon_no_label c good, no_colon host of_rest) refl
]

-- A host name that CanonicalServerOrigin accepts holds no colon.
pub check_host-no_colon : (host : Bytes) → check_host host ≡ ok tt → contains b':' host ≡ false
unfolding check_host
check_host-no_colon host h =
    let (ascii, h1) =
      refuse_ok (length host == 0 || not (is_ascii host) || not (bytes_eq (map to_lower host) host))
        _ _ h in
    let (dots, h2) =
      refuse_ok (starts_with b'.' host || last host == b'.' || has_double_dot host) _ _ h1 in
    let t = passed (not (all_labels (split b'.' host))) _ h2 in
    no_colon host (labels-chars (split b'.' host) (ground arith))

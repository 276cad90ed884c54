-- ===== src/Keys/Injective.antt =====
-- Joined keys determine their parts.
use bitboxsync_client_go.Prelude.{
  ℕ, ◌^◌, ◌<◌, List, [], ◌∷◌, ◌++◌, length, append_assoc, append-nil, ◌≡◌, refl, sym, ◌∙◌, All,
  append-cancel,
}
use bitboxsync_client_go.Prelude.Bytes.{Bytes, put_uint64, put_uint64_inj}
use bitboxsync_client_go.Keys.{
  append_key_parts, join_key_parts, collection_registry_key, compose_logical_key, logical_lock_key,
}

-- The joined key without the accumulator.
framed : List Bytes → Bytes
framed [] = []
framed (p ∷ ps) = put_uint64 (length p) ++ (p ++ framed ps)

append_key_parts-framed :
    (out : Bytes) (ps : List Bytes) → append_key_parts out ps ≡ out ++ framed ps
unfolding append_key_parts framed
append_key_parts-framed out [] = sym (append-nil out)
append_key_parts-framed out (p ∷ ps) =
    append_key_parts-framed ((out ++ put_uint64 (length p)) ++ p) ps ∙ simp append_assoc

abbrev pub IsShort : Bytes → Type 0
IsShort p = length p < 2 ^ 64

length-put_uint64 : (n : ℕ) → length (put_uint64 n) ≡ 8
unfolding put_uint64
length-put_uint64 n = refl

framed_inj :
    (ps qs : List Bytes) → All IsShort ps → All IsShort qs → framed ps ≡ framed qs → ps ≡ qs
unfolding framed
framed_inj [] [] hp hq h = refl
framed_inj [] (q ∷ qs) hp hq h = absurd (unfold put_uint64 in cc)
framed_inj (p ∷ ps) [] hp hq h = absurd (unfold put_uint64 in cc)
framed_inj (p ∷ ps) (q ∷ qs) (sp, hp) (sq, hq) h =
    let (e, rest) =
      append-cancel (put_uint64 (length p)) (put_uint64 (length q))
        (length-put_uint64 _ ∙ sym (length-put_uint64 _)) h in
    let (e', rest') = append-cancel p q (put_uint64_inj sp sq e) rest in
    cc (e', framed_inj ps qs hp hq rest')

-- joinKeyParts is injective over all lists of parts that fit a 64-bit length, of whatever counts:
-- equal keys come from equal lists.
pub join_key_parts_inj :
    (ps qs : List Bytes)
    → All IsShort ps
    → All IsShort qs
    → join_key_parts ps ≡ join_key_parts qs
    → ps ≡ qs
unfolding join_key_parts
join_key_parts_inj ps qs hp hq h =
    framed_inj ps qs hp hq (sym (append_key_parts-framed [] ps) ∙ h ∙ append_key_parts-framed [] qs)

-- Two logical keys share a mutex only if they are the same namespace, collection and key.
pub logical_lock_key_inj :
    (n c k n' c' k' : Bytes)
    → All IsShort (n ∷ c ∷ k ∷ n' ∷ c' ∷ k' ∷ [])
    → logical_lock_key n c k ≡ logical_lock_key n' c' k'
    → (n ≡ n') × (c ≡ c') × (k ≡ k')
unfolding logical_lock_key
logical_lock_key_inj n c k n' c' k' (s1, (s2, (s3, (s4, (s5, (s6, _)))))) h =
    let e =
      join_key_parts_inj (n ∷ c ∷ k ∷ []) (n' ∷ c' ∷ k' ∷ []) (s1, (s2, (s3, tt)))
        (s4, (s5, (s6, tt))) h in
    (cc, cc, cc)

-- Two collections of an engine share a registry key only if namespace and name agree, and two
-- items of a namespace share the text that their ID is derived from only if collection and key do.
pub two_part_keys_inj :
    (a b a' b' : Bytes)
    → All IsShort (a ∷ b ∷ a' ∷ b' ∷ [])
    → (collection_registry_key a b ≡ collection_registry_key a' b' → (a ≡ a') × (b ≡ b'))
      × (compose_logical_key a b ≡ compose_logical_key a' b' → (a ≡ a') × (b ≡ b'))
unfolding collection_registry_key compose_logical_key
two_part_keys_inj a b a' b' (s1, (s2, (s3, (s4, _)))) = (parts, parts)
  where
    parts : join_key_parts (a ∷ b ∷ []) ≡ join_key_parts (a' ∷ b' ∷ []) → (a ≡ a') × (b ≡ b')
    parts h =
        let e = join_key_parts_inj (a ∷ b ∷ []) (a' ∷ b' ∷ []) (s1, (s2, tt)) (s3, (s4, tt)) h in
        (cc, cc)

-- ===== src/Session/Added.antt =====
-- Caches as they come about: `AddReal` of any CIDs of bytes, one after the other, on a new cache.
use quic_hop.Base.{
  ℕ, ◌≤◌, ◌≡◌, refl, ◌∙◌, ◌≢◌, List, [], ◌∷◌, ◌++◌, none, some, length, take, replicate, Bool-cases,
  inl, inr,
}
use quic_hop.Base.Assoc.{bytes_beq, bytes_beq_iff}
use quic_hop.Base.BitArray.{IsBytes}
use quic_hop.Session.{CidCache, new_cid_cache, add_real, find_by_real, find_by_decoded56}
use quic_hop.Session.Invariant.{IsValid, new_cid_cache-IsValid, add_real-IsValid}
use quic_hop.Session.Lookup.{find_by_real-add_real}
use quic_hop.Session.Prefixes.{zero_unindexed, find_by_decoded56_complete}

abbrev pub add_all : List (List ℕ) → CidCache → CidCache
add_all [] c = c
add_all (k ∷ ks) c = add_all ks (add_real c k)

abbrev pub AreBytes : List (List ℕ) → Type 0
AreBytes [] = Unit {0}
AreBytes (k ∷ ks) = IsBytes k × AreBytes ks

add_all-IsValid :
    (ks : List (List ℕ)) (c : CidCache) → IsValid c → AreBytes ks → IsValid (add_all ks c)
add_all-IsValid [] c v bytes = v
add_all-IsValid (k ∷ ks) c v bytes =
    add_all-IsValid ks (add_real c k) (add_real-IsValid c k v bytes.0) bytes.1

add_all-append :
    (ks ls : List (List ℕ)) (c : CidCache) → add_all (ks ++ ls) c ≡ add_all ls (add_all ks c)
add_all-append [] ls c = refl
add_all-append (k ∷ ks) ls c = add_all-append ks ls (add_real c k)

-- What is known stays known.
still_known :
    (ks : List (List ℕ)) (c : CidCache) (k : List ℕ)
    → IsValid c
    → AreBytes ks
    → find_by_real c k ≡ some k
    → find_by_real (add_all ks c) k ≡ some k
still_known [] c k v bytes known = known
still_known (l ∷ ks) c k v bytes known =
    still_known ks (add_real c l) k (add_real-IsValid c l v bytes.0) bytes.1 (
      find_by_real-add_real c l k v bytes.0
      ∙ elim (Bool-cases (bytes_beq l k)) [ inl same ↦ rw same refl | inr other ↦ rw other known ])

-- Whatever CIDs of bytes are added to a new cache, of any lengths and with any first bytes, seven
-- zero bytes find none of them, with anything behind the zeros: their hash is the mark for "no hash".
pub find_by_decoded56_zero :
    (ks : List (List ℕ)) (d : List ℕ)
    → AreBytes ks
    → IsBytes d
    → take 7 d ≡ replicate 7 0
    → find_by_decoded56 (add_all ks new_cid_cache) d ≡ none
find_by_decoded56_zero ks d added bytes zeros =
    zero_unindexed (add_all ks new_cid_cache) d
      (add_all-IsValid ks new_cid_cache new_cid_cache-IsValid added) bytes zeros

-- Whatever CIDs of bytes were added to a new cache before and after it, a CID of bytes that was added,
-- of at least 7 bytes which do not start with seven zeros, is reached by any bytes that start as it
-- does: some CID with those first 7 bytes is found.
pub find_by_decoded56-add_all :
    (before after : List (List ℕ)) (k d : List ℕ)
    → AreBytes before
    → IsBytes k
    → AreBytes after
    → IsBytes d
    → 7 ≤ length k
    → 7 ≤ length d
    → take 7 k ≡ take 7 d
    → take 7 d ≢ replicate 7 0
    → (r : List ℕ) × (find_by_decoded56 (add_all (before ++ k ∷ after) new_cid_cache) d ≡ some r)
      × (take 7 r ≡ take 7 d)
find_by_decoded56-add_all before after k d sound bytes sound' bytes' k_long long same nonzero =
    let c = add_all before new_cid_cache in
    let v = add_all-IsValid before new_cid_cache new_cid_cache-IsValid sound in
    let v' = add_real-IsValid c k v bytes in
    let known : find_by_real (add_real c k) k ≡ some k =
      find_by_real-add_real c k k v bytes ∙ rw ((bytes_beq_iff k k).1 refl) refl in
    rw (add_all-append before (k ∷ after) new_cid_cache) (
      find_by_decoded56_complete (add_all after (add_real c k)) d k
        (add_all-IsValid after (add_real c k) v' sound') bytes'
        (still_known after (add_real c k) k v' sound' known) k_long long same nonzero)

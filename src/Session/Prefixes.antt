-- ===== src/Session/Prefixes.antt =====
-- `FindByDecoded56`: the lookup by the first 7 bytes.
use quic_hop.Base.{
  ℕ, ◌≤◌, ◌≡◌, refl, sym, ap, ◌∙◌, ◌≢◌, List, none, some, arith, length, take, replicate,
  Option-cases, inl, inr, length-take,
}
use quic_hop.Base.Assoc.{lookup, bytes_beq_iff, bytes_keys, number_keys}
use quic_hop.Base.BitArray.{IsBytes, take-IsBytes}
use quic_hop.Session.{
  CidCache, add_entry, add_real, real_at, find_by_real, find_by_decoded56, hash_prefix56,
  entry_hash,
}
use quic_hop.Session.Prefix.{
  hash_prefix56-eq-zero_iff, entry_hash-long, entry_hash_lem, entry_hash-injective,
}
use quic_hop.Session.Invariant.{IsValid, add_real_new, add_entry-IsValid, newest_indexed}
use quic_hop.Session.Lookup.{
  find_by_real_known, find_by_real_found, find_by_real_missing, entries-add_entry,
}

module _ (c : CidCache) (d : List ℕ) (v : IsValid c) where
  indexed_found :
      (p : ℕ)
      → 7 ≤ length d
      → lookup (hash_prefix56 (take 7 d)) c.prefix56_index ≡ some p
      → (k : List ℕ) × (find_by_decoded56 c d ≡ some k)
        × (lookup k c.entries ≡ some p)
        × (entry_hash k ≡ hash_prefix56 (take 7 d))
        × (hash_prefix56 (take 7 d) ≢ 0)
  unfolding find_by_decoded56 real_at
  indexed_found p long e =
      let i = v.index _ p e in (i.0, ground (arith, e, (v.entry i.0 p i.1).0), i.1, i.2, i.3)

  unindexed :
      lookup (hash_prefix56 (take 7 d)) c.prefix56_index ≡ none → find_by_decoded56 c d ≡ none
  unfolding find_by_decoded56
  unindexed e = ground (arith, e)

  found_long : (r : List ℕ) → find_by_decoded56 c d ≡ some r → 7 ≤ length d
  unfolding find_by_decoded56
  found_long r e = ground (arith, e)

-- One pointer stands for one CID.
holds_same :
    (c : CidCache) (j k : List ℕ) (p : ℕ)
    → IsValid c
    → lookup j c.entries ≡ some p
    → lookup k c.entries ≡ some p
    → j ≡ k
holds_same c j k p v hj hk =
    let ej = (v.entry j p hj).0 in let ek = (v.entry k p hk).0 in cc (ej, ek)

-- In a valid cache, a CID that is found by bytes is a known one, of at least 7 bytes, and starts
-- with the 7 bytes asked for.
pub find_by_decoded56_sound :
    (c : CidCache) (d r : List ℕ)
    → IsValid c
    → IsBytes d
    → find_by_decoded56 c d ≡ some r
    → (find_by_real c r ≡ some r) × (7 ≤ length r) × (take 7 r ≡ take 7 d)
find_by_decoded56_sound c d r v bytes e =
    elim (Option-cases (lookup (hash_prefix56 (take 7 d)) c.prefix56_index)) [
      | inl missing ↦ let nothing = unindexed c d v missing in absurd (cc nothing)
      | inr (p, there) ↦
          let long = found_long c d v r e in
          let f = indexed_found c d v p long there in
          let same : f.0 ≡ r = cc (f.1) in
          let r_long : 7 ≤ length f.0 = entry_hash-long f.0 (rw (f.3) (f.4)) in
          rw (← same) (
            find_by_real_known c f.0 p v f.2,
            r_long,
            entry_hash-injective f.0 d (v.entry f.0 p f.2).1 bytes r_long long f.3,
          )
    ]

-- In a valid cache, a known CID of at least 7 bytes is reached by any bytes that start as it does,
-- unless those are seven zeros: some CID with those 7 bytes is found.
pub find_by_decoded56_complete :
    (c : CidCache) (d k : List ℕ)
    → IsValid c
    → IsBytes d
    → find_by_real c k ≡ some k
    → 7 ≤ length k
    → 7 ≤ length d
    → take 7 k ≡ take 7 d
    → take 7 d ≢ replicate 7 0
    → (r : List ℕ) × (find_by_decoded56 c d ≡ some r) × (take 7 r ≡ take 7 d)
find_by_decoded56_complete c d k v bytes known k_long long same nonzero =
    let there = find_by_real_found c k k v known in
    let hash : entry_hash k ≡ hash_prefix56 (take 7 d) =
      entry_hash_lem k k_long ∙ ap hash_prefix56 same in
    let q = v.indexed k there.1 there.2 (λ z. nonzero (
      (hash_prefix56-eq-zero_iff (take 7 d) (omega (arith, length-take 7 d))
          (take-IsBytes 7 d bytes)).0
        (sym hash ∙ z))) in
    let f = indexed_found c d v q.0 long (rw hash at q.1) in
    (f.0, f.1, (find_by_decoded56_sound c d f.0 v bytes f.1).2)

-- Nothing is indexed under the hash of seven zeros.
pub zero_unindexed :
    (c : CidCache) (d : List ℕ)
    → IsValid c
    → IsBytes d
    → take 7 d ≡ replicate 7 0
    → find_by_decoded56 c d ≡ none
zero_unindexed c d v bytes zeros =
    elim (Option-cases (lookup (hash_prefix56 (take 7 d)) c.prefix56_index)) [
      | inl missing ↦ unindexed c d v missing
      | inr (p, there) ↦
          let i = v.index _ p there in
          absurd (
            i.3 (
              (hash_prefix56-eq-zero_iff (take 7 d) (ap length zeros) (take-IsBytes 7 d bytes)).1
                zeros))
    ]

-- In a valid cache, a CID that was not known, of at least 7 bytes that are not seven zeros, is the
-- one that its first 7 bytes find right after it is added, also if an older CID starts with the
-- same 7 bytes.
pub find_by_decoded56-add_real :
    (c : CidCache) (d k : List ℕ)
    → IsValid c
    → IsBytes k
    → find_by_real c k ≡ none
    → 7 ≤ length k
    → 7 ≤ length d
    → take 7 k ≡ take 7 d
    → take 7 d ≢ replicate 7 0
    → find_by_decoded56 (add_real c k) d ≡ some k
find_by_decoded56-add_real c d k v bytes unknown k_long long same nonzero =
    let new = find_by_real_missing c k v unknown in
    let v' = add_entry-IsValid c k v new bytes in
    let hash : entry_hash k ≡ hash_prefix56 (take 7 d) =
      entry_hash_lem k k_long ∙ ap hash_prefix56 same in
    let live : entry_hash k ≢ 0 = λ z. nonzero (
      sym same
      ∙ (hash_prefix56-eq-zero_iff (take 7 k) (omega (arith, length-take 7 k))
            (take-IsBytes 7 k bytes)).0
          (sym (entry_hash_lem k k_long) ∙ z)) in
    let place = newest_indexed c k v new bytes live in
    let f = indexed_found (add_entry c k) d v' (length c.store) long (rw hash at place) in
    let mine : lookup k (add_entry c k).entries ≡ some (length c.store) =
      entries-add_entry c k k ∙ rw ((bytes_beq_iff k k).1 refl) in
    let equal : f.0 ≡ k = holds_same (add_entry c k) f.0 k (length c.store) v' f.2 mine in
    rw (add_real_new c k new, f.1) (ap (λ (x : List ℕ). some x) equal)

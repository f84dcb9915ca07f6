-- ===== src/Tests/Session.antt =====
-- The CID cache and the server's map of caches on concrete inputs.
use quic_hop.Base.{
  ℕ, ◌≡◌, ◌≤◌, refl, ◌≢◌, List, [], ◌∷◌, ◌++◌, none, some, arith, length, take, replicate,
}
use quic_hop.Base.BitArray.{IsBytes}
use quic_hop.Base.Assoc.{lookup, insert, bytes_keys}
use quic_hop.Config.{codes}
use quic_hop.Session.{
  ServerSessionMap, new_cid_cache, add_real, find_by_real, find_by_decoded56, clone_bytes,
  hash_prefix56, entry_hash, add_entry, real_at,
}
use quic_hop.Session.Invariant.{IsValid, add_real-IsValid}
use quic_hop.Session.Prefixes.{find_by_decoded56_sound}
use quic_hop.Session.Added.{find_by_decoded56_zero, find_by_decoded56-add_all}
use quic_hop.Tests.{
  first_cid-IsBytes, starts, first_cid, second_cid, second_cid-IsBytes, first_cache,
  first_cache-Knows, all_bytes-IsBytes,
}

valid : IsValid first_cache
valid = first_cache-Knows.valid

second_strange : second_cid ≢ first_cid
second_strange e = absurd (cc e)

add_real-IsValid_example : IsValid (add_real first_cache second_cid)
add_real-IsValid_example = add_real-IsValid first_cache second_cid valid second_cid-IsBytes

-- The second CID's first bytes find the first CID while it is the only one.
found_first : find_by_decoded56 first_cache second_cid ≡ some first_cid
unfolding find_by_decoded56 add_real add_entry new_cid_cache hash_prefix56 entry_hash clone_bytes
    real_at lookup insert
found_first = refl

find_by_decoded56_sound_example :
    (find_by_real first_cache first_cid ≡ some first_cid)
    × (7 ≤ length first_cid)
    × (take 7 first_cid ≡ take 7 second_cid)
find_by_decoded56_sound_example =
    find_by_decoded56_sound first_cache second_cid first_cid valid second_cid-IsBytes found_first

abbrev zero_cid : List ℕ
zero_cid = replicate 7 0 ++ 1 ∷ 2 ∷ 3 ∷ 4 ∷ 5 ∷ 6 ∷ 7 ∷ 8 ∷ 9 ∷ []

zero_cid-IsBytes : IsBytes zero_cid
zero_cid-IsBytes = all_bytes-IsBytes zero_cid refl

find_by_decoded56_zero_example :
    find_by_decoded56 (add_real (add_real new_cid_cache first_cid) zero_cid) zero_cid ≡ none
find_by_decoded56_zero_example =
    find_by_decoded56_zero (first_cid ∷ zero_cid ∷ []) zero_cid
      (first_cid-IsBytes, (zero_cid-IsBytes, tt)) zero_cid-IsBytes refl

find_by_decoded56-add_all_example :
    (r : List ℕ) × (find_by_decoded56
        (add_real (add_real (add_real new_cid_cache zero_cid) first_cid) second_cid)
        second_cid
      ≡ some r)
    × (take 7 r ≡ take 7 second_cid)
find_by_decoded56-add_all_example =
    find_by_decoded56-add_all (zero_cid ∷ []) (second_cid ∷ []) first_cid second_cid
      (zero_cid-IsBytes, tt) first_cid-IsBytes (second_cid-IsBytes, tt) second_cid-IsBytes
      (omega arith) (omega arith) refl starts

abbrev one_server : ServerSessionMap
one_server = (codes "10.0.0.7:4242", first_cache) ∷ []

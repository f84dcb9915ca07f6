-- ===== src/Session.antt =====
-- pkg/magic/session.go: the cache of known real CIDs and the server's map of caches. The two maps
-- of a cache share their entries through pointers, so the entries stand in a store and the maps hold
-- positions in it. The locks make each method one step; a slice is its content.
pub mod Prefix
pub mod Invariant
pub mod Lookup
pub mod Prefixes
pub mod Added
pub mod Servers
use quic_hop.Base.{
  ℕ, zero, suc, ◌+◌, ◌*◌, List, [], ◌∷◌, ◌++◌, map, Option, none, some, bit_or, length, get_elem?,
  get_or, set, take, replicate, ltb, ◌==◌, not, ◌<<<◌, if◌then◌else◌, ◌>>=◌, Bool,
}
use quic_hop.Base.Assoc.{lookup, insert, bytes_keys, number_keys}
use quic_hop.Config.{payload_bytes}
use quic_hop.Algo.Codec.{copy}

pub record CidEntry : Type 0 where
  pub real : List ℕ
  pub prefix56_hash : ℕ

pub record CidCache : Type 0 where
  pub store : List CidEntry
  pub entries : List (List ℕ × ℕ)
  pub prefix56_index : List (ℕ × ℕ)

unfoldable pub new_cid_cache : CidCache
new_cid_cache = record { store = []; entries = []; prefix56_index = [] }

-- A fresh slice of the same content.
unfoldable pub clone_bytes : List ℕ → List ℕ
clone_bytes src = copy (replicate (length src) 0) src

-- The first 7 bytes as a little-endian number.
unfoldable pub hash_prefix56 : List ℕ → ℕ
hash_prefix56 b =
    if ltb (length b) 7
    then 0
    else bit_or
        (bit_or
          (bit_or
            (bit_or (bit_or (bit_or (get_or b 0 0) (get_or b 1 0 <<< 8)) (get_or b 2 0 <<< 16))
              (get_or b 3 0 <<< 24))
            (get_or b 4 0 <<< 32))
          (get_or b 5 0 <<< 40))
        (get_or b 6 0 <<< 48)

-- The hash that a new entry gets: 0 for a CID that is too short.
unfoldable pub entry_hash : List ℕ → ℕ
entry_hash real =
    if ltb (length real) payload_bytes then 0 else hash_prefix56 (take payload_bytes real)

-- `e.real = cloneBytes(real)` through the pointer `p`.
unfoldable pub replace_real : List CidEntry → ℕ → List ℕ → List CidEntry
unfolding clone_bytes
replace_real [] p real = []
replace_real (e ∷ es) zero real = record e { real = clone_bytes real } ∷ es
replace_real (e ∷ es) (suc p) real = e ∷ replace_real es p real

-- A new entry, at the end of the store, and its places in the maps.
unfoldable pub add_entry : CidCache → List ℕ → CidCache
unfolding clone_bytes entry_hash
add_entry c real =
    let p = length c.store in
    let hash = entry_hash real in
    record {
      store = c.store ++ record { real = clone_bytes real; prefix56_hash = hash } ∷ [];
      entries = insert real p c.entries;
      prefix56_index = if not (hash == 0) then insert hash p c.prefix56_index else c.prefix56_index;
    }

unfoldable pub add_real : CidCache → List ℕ → CidCache
unfolding replace_real
add_real c real = elim (lookup real c.entries) [
  | some p ↦ record c { store = replace_real c.store p real }
  | none ↦ add_entry c real
]

-- The content behind a pointer.
unfoldable pub real_at : List CidEntry → ℕ → Option (List ℕ)
real_at es p = get_elem? es p >>= λ e. some e.real

unfoldable pub find_by_real : CidCache → List ℕ → Option (List ℕ)
unfolding real_at
find_by_real c real = lookup real c.entries >>= real_at c.store

unfoldable pub reals_of : List CidEntry → List (List ℕ × ℕ) → List (List ℕ)
unfolding clone_bytes
reals_of store [] = []
reals_of store ((k, p) ∷ m) =
    let rest = reals_of store m in
    elim (get_elem? store p) [ some e ↦ clone_bytes e.real ∷ rest | none ↦ rest ]

-- The real CIDs, in the order of the map's entries.
unfoldable pub get_reals : CidCache → List (List ℕ)
unfolding reals_of
get_reals c = reals_of c.store c.entries

unfoldable pub find_by_decoded56 : CidCache → List ℕ → Option (List ℕ)
unfolding real_at
find_by_decoded56 c decoded =
    if ltb (length decoded) payload_bytes
    then none
    else lookup (hash_prefix56 (take payload_bytes decoded)) c.prefix56_index >>= real_at c.store

-- The map from client addresses to caches.
abbrev pub ServerSessionMap : Type 0
ServerSessionMap = List (List ℕ × CidCache)

-- The cache of an address, made on its first use, and the map after the call.
unfoldable pub get_cache : ServerSessionMap → List ℕ → CidCache × ServerSessionMap
get_cache m addr_str = elim (lookup addr_str m) [
  | some cache ↦ (cache, m)
  | none ↦ (new_cid_cache, insert addr_str new_cid_cache m)
]

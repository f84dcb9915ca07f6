-- ===== src/Session/Servers.antt =====
-- The server's caches are separate: what happens under one address is not seen under another.
use quic_hop.Base.{ℕ, ◌≡◌, List, none, some, arith, if◌then◌else◌}
use quic_hop.Base.Assoc.{
  lookup, insert, lookup-insert, lookup-insert_self, bytes_beq, bytes_beq_iff, bytes_keys,
}
use quic_hop.Session.{CidCache, ServerSessionMap, new_cid_cache, get_cache}

-- What the map holds for an address, a new cache where it holds nothing.
unfoldable pub cache_of : ServerSessionMap → List ℕ → CidCache
cache_of m addr = elim (lookup addr m) [ some cache ↦ cache | none ↦ new_cid_cache ]

-- `GetCache` returns the cache of the address, registers it, and changes no cache of any address.
pub get_cache_lem :
    (m : ServerSessionMap) (addr other : List ℕ)
    → ((get_cache m addr).0 ≡ cache_of m addr)
      × (lookup addr (get_cache m addr).1 ≡ some (get_cache m addr).0)
      × (cache_of (get_cache m addr).1 other ≡ cache_of m other)
unfolding get_cache cache_of
get_cache_lem m addr other = ground (
  arith,
  lookup-insert addr other new_cid_cache m,
  lookup-insert_self addr new_cid_cache m,
  bytes_beq_iff addr other,
)

-- A cache stored under an address is found there, and other addresses keep theirs.
pub cache_of-insert :
    (m : ServerSessionMap) (addr other : List ℕ) (cache : CidCache)
    → cache_of (insert addr cache m) other
      ≡ (if bytes_beq addr other then cache else cache_of m other)
unfolding cache_of
cache_of-insert m addr other cache = ground (arith, lookup-insert addr other cache m)

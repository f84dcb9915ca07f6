-- ===== src/Algo/Mask.antt =====
-- `GenerateMask` of algo.go: a 128-bit mask for an address, with half of its bits set, kept in a
-- map that every call shares. The key is the address as text.
pub mod Weight
pub mod Cache
use quic_hop.Base.{
  ℕ, zero, suc, ◌+◌, ◌*◌, ◌/◌, ◌%◌, List, ◌∷◌, [], Option, none, some, bit_or, get_elem?, set,
  replicate, u8, ◌<<<◌, ◌>>=◌,
}
use quic_hop.Base.Assoc.{lookup, insert, bytes_keys}
use quic_hop.Config.{shared_secret}
use quic_hop.Algo.Fnv.{fnv_offset, fnv_write}
use quic_hop.Algo.Rng.{SimpleRng, new_simple_rng, intn}
use quic_hop.Algo.Shuffle.{upto, shuffle_loop}

-- `mask[idx/8] |= (1 << (idx % 8))`
unfoldable pub mark : List ℕ → ℕ → Option (List ℕ)
mark mask idx = do
  b ← get_elem? mask (idx / 8)
  some (set mask (idx / 8) (bit_or b (u8 (1 <<< (idx % 8)))))

unfoldable pub mask_loop : List ℕ → ℕ → ℕ → List ℕ → Option (List ℕ)
unfolding mark
mask_loop indices zero i mask = some mask
mask_loop indices (suc left) i mask = do
  idx ← get_elem? indices i
  mask' ← mark mask idx
  mask_loop indices left (i + 1) mask'

-- The seed: the hash of the secret followed by the key.
unfoldable pub mask_seed : List ℕ → ℕ
mask_seed key = fnv_write (fnv_write fnv_offset shared_secret) key

-- The mask of a key that is not in the cache.
unfoldable pub compute_mask : List ℕ → Option (List ℕ)
unfolding mask_seed mask_loop
compute_mask key = do
  indices ← shuffle_loop intn 127 (upto 0 128) (new_simple_rng (mask_seed key))
  mask_loop indices 64 0 (replicate 16 0)

abbrev pub MaskCache : Type 0
MaskCache = List (List ℕ × List ℕ)

-- The mask, and the cache after the call.
unfoldable pub generate_mask : MaskCache → List ℕ → Option (List ℕ × MaskCache)
unfolding compute_mask
generate_mask cache key = elim (lookup key cache) [
  | some cached ↦ some (cached, cache)
  | none ↦ compute_mask key >>= λ mask. some (mask, insert key mask cache)
]

-- ===== src/Algo/Mask/Cache.antt =====
-- The cache never changes what `GenerateMask` returns.
use quic_hop.Base.{ℕ, ◌≡◌, ◌∙◌, sym, List, some, Option-cases, inl, inr, Bool-cases}
use quic_hop.Base.Assoc.{
  lookup, insert, lookup-insert, bytes_keys, bytes_beq, bytes_beq_iff, lookup-insert_self,
}
use quic_hop.Algo.Mask.{MaskCache, compute_mask, generate_mask}
use quic_hop.Algo.Mask.Weight.{compute_mask-weight}

-- Every mask in the cache is the one that would be computed.
abbrev pub IsCoherent : MaskCache → Type 0
IsCoherent cache = (key mask : List ℕ) → lookup key cache ≡ some mask → compute_mask key ≡ some mask

insert-IsCoherent :
    (cache : MaskCache) (key mask : List ℕ)
    → compute_mask key ≡ some mask
    → IsCoherent cache
    → IsCoherent (insert key mask cache)
insert-IsCoherent cache key mask e h key' mask' found = elim (Bool-cases (bytes_beq key key')) [
  | inl same ↦
      let hit : some mask ≡ some mask' =
        rw same at (sym (lookup-insert key key' mask cache) ∙ found) in
      let equal : key ≡ key' = (bytes_beq_iff key key').0 same in rw (← equal) (e ∙ hit)
  | inr other ↦ h key' mask' (rw other at (sym (lookup-insert key key' mask cache) ∙ found))
]

-- From a coherent cache every key gets the mask that an empty cache would give; the cache stays
-- coherent, and a second call for the key finds the same mask and changes nothing.
pub generate_mask_stable :
    (cache : MaskCache) (key : List ℕ)
    → IsCoherent cache
    → (mask : List ℕ) × (cache' : MaskCache) × (generate_mask cache key ≡ some (mask, cache'))
      × (compute_mask key ≡ some mask)
      × IsCoherent cache'
      × (generate_mask cache' key ≡ some (mask, cache'))
unfolding generate_mask
generate_mask_stable cache key h = elim (Option-cases (lookup key cache)) [
  | inl miss ↦
      let c = compute_mask-weight key in
      (
        c.0,
        insert key c.0 cache,
        rw (miss, generate_mask, c.1),
        c.1,
        insert-IsCoherent cache key c.0 c.1 h,
        rw (lookup-insert_self key c.0 cache, generate_mask),
      )
  | inr (mask, hit) ↦
      (mask, cache, rw (hit, generate_mask), h key mask hit, h, rw (hit, generate_mask))
]

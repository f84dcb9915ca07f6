-- ===== src/Tests/Codec.antt =====
-- The codec, the index table and the masks on concrete inputs.
use quic_hop.Base.{
  ℕ, ◌≡◌, refl, ◌≢◌, ◌↔◌, List, [], ◌++◌, none, some, arith, length, take, replicate,
}
use quic_hop.Base.Assoc.{lookup}
use quic_hop.Config.{codes}
use quic_hop.Algo.Codec.{put_uint16, obfuscate, deobfuscate}
use quic_hop.Algo.Codec.Laws.{deobfuscate-obfuscate}
use quic_hop.Algo.Codec.Checks.{codec_panics_iff}
use quic_hop.Algo.Mask.{compute_mask}
use quic_hop.Algo.Mask.Weight.{weight, compute_mask-weight}
use quic_hop.Algo.Mask.Cache.{IsCoherent}
use quic_hop.Tests.{counter_rand, first_cid, first_cid-IsBytes, all_bytes-IsBytes}

deobfuscate-obfuscate_example :
    (wire : List ℕ) × (obfuscate counter_rand first_cid 7 ≡ some wire)
    × (length wire ≡ 16)
    × (take 2 wire ≡ put_uint16 7)
    × (deobfuscate counter_rand wire ≡ some (take 7 first_cid ++ replicate 9 0))
deobfuscate-obfuscate_example =
    deobfuscate-obfuscate counter_rand first_cid 7 refl first_cid-IsBytes (omega arith)

abbrev short_cid : List ℕ
short_cid = take 15 first_cid

codec_panics_iff_example :
    ((obfuscate counter_rand short_cid 7 ≡ none) ↔ (length short_cid ≢ 16))
    × ((deobfuscate counter_rand short_cid ≡ none) ↔ (length short_cid ≢ 16))
codec_panics_iff_example =
    codec_panics_iff counter_rand short_cid 7 (all_bytes-IsBytes short_cid refl) (omega arith)

abbrev key : List ℕ
key = codes "10.0.0.7:4242"

compute_mask-weight_example :
    (mask : List ℕ) × (compute_mask key ≡ some mask) × (length mask ≡ 16) × (weight 128 mask ≡ 64)
compute_mask-weight_example = compute_mask-weight key

no_masks : IsCoherent []
unfolding lookup
no_masks key' mask found = absurd (cc found)

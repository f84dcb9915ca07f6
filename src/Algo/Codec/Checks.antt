-- ===== src/Algo/Codec/Checks.antt =====
-- The codec's length checks and comparisons.
use quic_hop.Base.{
  ℕ, ◌≤◌, ◌<◌, ◌^◌, ◌≡◌, refl, ◌≢◌, ◌↔◌, List, [], ◌∷◌, ◌++◌, none, some, Bool-cases, inl, inr,
  true, arith, length, take, drop, replicate, ◌==◌, ==_iff, get_or, length-drop, ◌<<<◌,
}
use quic_hop.Base.Bits.{bit_or-lt}
use quic_hop.Base.BitArray.{IsBytes, take-IsBytes}
use quic_hop.Algo.Rng.{MathRand}
use quic_hop.Algo.Indices.{shuffled_indices-IsPermutation}
use quic_hop.Algo.Codec.{get_uint16, obfuscate, deobfuscate, bytes_equal, matches}
use quic_hop.Algo.Codec.Decode.{decode_loop_lem}
use quic_hop.Algo.Codec.Laws.{obfuscate-Wire, deobfuscate-eq}

get_uint16-lt : (b : List ℕ) → IsBytes b → get_uint16 b < 2 ^ 16
get_uint16-lt b h =
    bit_or-lt 16 (get_or b 1 0) (get_or b 0 0 <<< 8) (omega (arith, h 1)) (omega (arith, h 0))

module _ (m : MathRand) where
  -- `Deobfuscate` returns for every 16 bytes, however they were made: 7 bytes and 9 zero bytes.
  pub deobfuscate_total :
      (cid : List ℕ)
      → length cid ≡ 16
      → IsBytes cid
      → (payload : List ℕ) × (deobfuscate m cid ≡ some (payload ++ replicate 9 0))
        × (length payload ≡ 7)
  deobfuscate_total cid sized bytes =
      let r =
        shuffled_indices-IsPermutation m (get_uint16 (take 2 cid))
          (get_uint16-lt (take 2 cid) (take-IsBytes 2 cid bytes)) in
      let d = decode_loop_lem (drop 2 cid) r.0 (omega (arith, length-drop 2 cid)) r.2 in
      (d.0, deobfuscate-eq m cid r.0 d.0 sized d.2.size r.1 d.1, d.2.size)

  obfuscate_short : (cid : List ℕ) (seed : ℕ) → length cid ≢ 16 → obfuscate m cid seed ≡ none
  unfolding obfuscate
  obfuscate_short cid seed h = elim (Bool-cases (length cid == 16)) [
    | inl e ↦ absurd (h ((==_iff _ _).0 e))
    | inr e ↦ rw e
  ]

  deobfuscate_short : (cid : List ℕ) → length cid ≢ 16 → deobfuscate m cid ≡ none
  unfolding deobfuscate
  deobfuscate_short cid h = elim (Bool-cases (length cid == 16)) [
    | inl e ↦ absurd (h ((==_iff _ _).0 e))
    | inr e ↦ rw e
  ]

  -- On bytes and a 16-bit seed both panic exactly when the slice is not 16 bytes long: no index of
  -- either loop is ever out of range.
  pub codec_panics_iff :
      (cid : List ℕ) (seed : ℕ)
      → IsBytes cid
      → seed < 2 ^ 16
      → ((obfuscate m cid seed ≡ none) ↔ (length cid ≢ 16))
        × ((deobfuscate m cid ≡ none) ↔ (length cid ≢ 16))
  codec_panics_iff cid seed bytes small = (
    (
      λ e sized. let w = obfuscate-Wire m cid seed sized small in cc (w.1.returns),
      obfuscate_short cid seed,
    ),
    (λ e sized. let d = deobfuscate_total cid sized bytes in cc (d.1), deobfuscate_short cid),
  )

bytes_equal_iff : (a b : List ℕ) → (bytes_equal a b ≡ true) ↔ (a ≡ b)
unfolding bytes_equal
bytes_equal_iff [] [] = (λ h. refl, λ h. refl)
bytes_equal_iff [] (y ∷ ys) = (λ h. cc, λ h. cc)
bytes_equal_iff (x ∷ xs) [] = (λ h. cc, λ h. cc)
bytes_equal_iff (x ∷ xs) (y ∷ ys) = ground (arith, bytes_equal_iff xs ys)

-- `Matches` holds exactly when both arguments have 7 bytes and agree in the first 7.
pub matches_iff :
    (a b : List ℕ)
    → (matches a b ≡ true) ↔ ((7 ≤ length a) × (7 ≤ length b) × (take 7 a ≡ take 7 b))
unfolding matches
matches_iff a b = ground (arith, bytes_equal_iff (take 7 a) (take 7 b))

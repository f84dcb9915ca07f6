-- ===== src/Algo/Codec/Decode.antt =====
-- What the decoding loop recovers: bit `i` is the difference of the bits at `indices[i]` and at
-- `indices[i + 56]`.
use quic_hop.Base.{
  ℕ, zero, suc, ◌+◌, ◌<◌, ◌≡◌, refl, ◌∙◌, List, some, arith, length, bit_xor, ltb, if◌then◌else◌,
  get_elem?-eq-get_or, get_or-replicate, replicate,
}
use native.Mathlib.Decide.{ℕ_discrete}
use quic_hop.Base.Bits.{bit_xor-lt}
use quic_hop.Base.BitArray.{bit_at, IsBytes, bit_at-lt, bit_at-replicate, read_bit_lem}
use quic_hop.Algo.Shuffle.{IsPermutation}
use quic_hop.Algo.Codec.{decode_bit, decode_loop, or_bit_if}
use quic_hop.Algo.Codec.Bit.{Writes, or_bit_if-Writes}
use quic_hop.Algo.Codec.Encode.{position}

abbrev pub difference : List ℕ → List ℕ → ℕ → ℕ
difference cipher indices i =
    bit_xor (bit_at cipher (position indices i)) (bit_at cipher (position indices (i + 56)))

-- The recovered bytes after the rounds below `i`.
pub record DecodedTo (cipher indices : List ℕ) (i : ℕ) (recovered : List ℕ) : Type 0 where
  pub size : length recovered ≡ 7
  pub bytes : IsBytes recovered
  pub bits :
      (q : ℕ) → q < 56 → bit_at recovered q ≡ (if ltb q i then difference cipher indices q else 0)

module _ (cipher indices : List ℕ) (sized : length cipher ≡ 14)
    (perm : IsPermutation 112 indices) where
  decode_bit-eq :
      (i : ℕ) (recovered : List ℕ)
      → i < 56
      → decode_bit cipher indices i recovered ≡ or_bit_if (difference cipher indices i) recovered i
  unfolding decode_bit
  decode_bit-eq i recovered h = rw (
    get_elem?-eq-get_or indices i 0 (omega (arith, perm.size)),
    get_elem?-eq-get_or indices (i + 56) 0 (omega (arith, perm.size)),
    read_bit_lem cipher (position indices i) (omega (arith, perm.below i)),
    read_bit_lem cipher (position indices (i + 56)) (omega (arith, perm.below (i + 56))),
  )

  bits_step :
      (i : ℕ) (recovered a : List ℕ)
      → i < 56
      → DecodedTo cipher indices i recovered
      → Writes recovered i (difference cipher indices i) a
      → (q : ℕ) → q < 56
      → bit_at a q ≡ (if ltb q (i + 1) then difference cipher indices q else 0)
  bits_step i recovered a h e w q hq = elim (ℕ_discrete q i) [
    | yes p ↦ rw p (ground (arith, w.here))
    | no p ↦ ground (arith, e.bits q, w.there q (omega arith))
  ]

  decode_bit-DecodedTo :
      (i : ℕ) (recovered : List ℕ)
      → i < 56
      → DecodedTo cipher indices i recovered
      → (recovered' : List ℕ) × (decode_bit cipher indices i recovered ≡ some recovered')
        × DecodedTo cipher indices (i + 1) recovered'
  decode_bit-DecodedTo i recovered h e =
      let w =
        or_bit_if-Writes (difference cipher indices i) recovered i
          (bit_xor-lt _ _ (bit_at-lt cipher (position indices i))
            (bit_at-lt cipher (position indices (i + 56))))
          (omega (arith, e.size)) (ground (arith, e.bits i)) in
      (
        w.0,
        decode_bit-eq i recovered h ∙ w.1,
        record {
          size = w.2.same_length ∙ e.size;
          bytes = w.2.bytes e.bytes;
          bits = bits_step i recovered w.0 h e w.2;
        },
      )

  decode_loop-DecodedTo :
      (left i : ℕ) (recovered : List ℕ)
      → i + left ≡ 56
      → DecodedTo cipher indices i recovered
      → (recovered' : List ℕ) × (decode_loop cipher indices left i recovered ≡ some recovered')
        × DecodedTo cipher indices 56 recovered'
  unfolding decode_loop
  decode_loop-DecodedTo zero i recovered e inv =
      let done : i ≡ 56 = omega arith in (recovered, refl, rw done at inv)
  decode_loop-DecodedTo (suc left) i recovered e inv =
      let step = decode_bit-DecodedTo i recovered (omega arith) inv in
      let rest = decode_loop-DecodedTo left (i + 1) step.0 (omega arith) step.2 in
      (rest.0, rw (step.1) (rest.1), rest.2)

  fresh : DecodedTo cipher indices 0 (replicate 7 0)
  fresh = record {
    size = refl;
    bytes = λ i. omega (arith, get_or-replicate {A = ℕ} 7 0 i);
    bits = λ q h. ground (arith, bit_at-replicate 7 q);
  }

  -- The loop returns, and each bit of its result is the difference of its two positions.
  pub decode_loop_lem :
      (recovered : List ℕ) × (decode_loop cipher indices 56 0 (replicate 7 0) ≡ some recovered)
      × DecodedTo cipher indices 56 recovered
  decode_loop_lem = decode_loop-DecodedTo 56 0 (replicate 7 0) refl fresh

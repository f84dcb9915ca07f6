-- ===== src/Algo/Codec/Encode.antt =====
-- What the encoding loop writes: noise bit `i` at position `indices[i + 56]`, and the payload bit
-- masked by it at `indices[i]`. Slot `s` of the output is position `indices[s]`.
use quic_hop.Base.{
  ℕ, zero, suc, ◌+◌, ◌-◌, ◌%◌, ◌<◌, ◌≡◌, refl, ◌∙◌, ◌≢◌, List, some, arith, length, get_or, bit_xor,
  ltb, if◌then◌else◌, get_elem?-eq-get_or, get_or-replicate, replicate,
}
use native.Mathlib.Decide.{ℕ_discrete}
use quic_hop.Base.Bits.{bit_xor-lt}
use quic_hop.Base.BitArray.{bit_at, IsBytes, bit_at-lt, bit_at-replicate, read_bit_lem}
use quic_hop.Algo.Shuffle.{IsPermutation}
use quic_hop.Algo.Codec.{encode_bit, encode_loop, or_bit_if}
use quic_hop.Algo.Codec.Bit.{Writes, or_bit_if-Writes}

abbrev pub position : List ℕ → ℕ → ℕ
position indices s = get_or indices s 0

-- The bit of slot `s` in a finished output.
abbrev pub slot_bit : List ℕ → List ℕ → ℕ → ℕ
slot_bit payload noise s =
    if ltb s 56 then bit_xor (bit_at noise s) (bit_at payload s) else bit_at noise (s - 56)

-- The output after the rounds below `i`.
pub record EncodedTo (payload noise indices : List ℕ) (i : ℕ) (output : List ℕ) : Type 0 where
  pub size : length output ≡ 14
  pub bytes : IsBytes output
  pub slots :
      (s : ℕ)
      → s < 112
      → bit_at output (position indices s)
        ≡ (if ltb (s % 56) i then slot_bit payload noise s else 0)

module _ (payload noise indices : List ℕ) (sized : length payload ≡ 7) (noisy : length noise ≡ 7)
    (perm : IsPermutation 112 indices) where
  apart : (s t : ℕ) → s < 112 → t < 112 → s ≢ t → position indices s ≢ position indices t
  apart s t h k ne e = ne (perm.distinct s t h k e)

  abbrev masked : ℕ → ℕ
  masked i = bit_xor (bit_at noise i) (bit_at payload i)

  encode_bit-eq :
      (i : ℕ) (output a b : List ℕ)
      → i < 56
      → or_bit_if (bit_at noise i) output (position indices (i + 56)) ≡ some a
      → or_bit_if (masked i) a (position indices i) ≡ some b
      → encode_bit payload noise indices i output ≡ some b
  unfolding encode_bit
  encode_bit-eq i output a b h ea eb =
      rw
        (
          read_bit_lem payload i (omega arith),
          read_bit_lem noise i (omega arith),
          get_elem?-eq-get_or indices i 0 (omega (arith, perm.size)),
          get_elem?-eq-get_or indices (i + 56) 0 (omega (arith, perm.size)),
          ea,
        )
        eb

  slots_step :
      (i : ℕ) (output a b : List ℕ)
      → i < 56
      → EncodedTo payload noise indices i output
      → Writes output (position indices (i + 56)) (bit_at noise i) a
      → Writes a (position indices i) (masked i) b
      → (s : ℕ) → s < 112
      → bit_at b (position indices s)
        ≡ (if ltb (s % 56) (i + 1) then slot_bit payload noise s else 0)
  slots_step i output a b h e wa wb s hs = elim (ℕ_discrete s i) [
    | yes p ↦ rw p (ground (arith, wb.here))
    | no p ↦ elim (ℕ_discrete s (i + 56)) [
      | yes q ↦
          let low : i + 56 - 56 ≡ i = omega arith in
          rw q (
            ground (
              arith,
              low,
              wa.here,
              wb.there (position indices (i + 56))
                  (apart i (i + 56) (omega arith) (omega arith) (omega arith)),
            ))
      | no q ↦ ground (
        arith,
        e.slots s,
        wb.there (position indices s) (apart i s (omega arith) hs (omega arith)),
        wa.there (position indices s) (apart (i + 56) s (omega arith) hs (omega arith)),
      )
    ]
  ]

  encode_bit-EncodedTo :
      (i : ℕ) (output : List ℕ)
      → i < 56
      → EncodedTo payload noise indices i output
      → (output' : List ℕ) × (encode_bit payload noise indices i output ≡ some output')
        × EncodedTo payload noise indices (i + 1) output'
  encode_bit-EncodedTo i output h e = (
    second.0,
    encode_bit-eq i output first.0 second.0 h first.1 second.1,
    record {
      size = second.2.same_length ∙ first.2.same_length ∙ e.size;
      bytes = second.2.bytes (first.2.bytes e.bytes);
      slots = slots_step i output first.0 second.0 h e first.2 second.2;
    },
  )
    where
      first :
          (a : List ℕ) × (or_bit_if (bit_at noise i) output (position indices (i + 56)) ≡ some a)
          × Writes output (position indices (i + 56)) (bit_at noise i) a
      first =
          or_bit_if-Writes (bit_at noise i) output (position indices (i + 56)) (bit_at-lt noise i)
            (omega (arith, perm.below (i + 56), e.size)) (ground (arith, e.slots (i + 56)))

      second :
          (b : List ℕ) × (or_bit_if (masked i) first.0 (position indices i) ≡ some b)
          × Writes first.0 (position indices i) (masked i) b
      second =
          or_bit_if-Writes (masked i) first.0 (position indices i)
            (bit_xor-lt _ _ (bit_at-lt noise i) (bit_at-lt payload i))
            (omega (arith, perm.below i, e.size, first.2.same_length))
            (ground (arith, e.slots i, first.2.there (position indices i), apart (i + 56) i))

  encode_loop-EncodedTo :
      (left i : ℕ) (output : List ℕ)
      → i + left ≡ 56
      → EncodedTo payload noise indices i output
      → (output' : List ℕ) × (encode_loop payload noise indices left i output ≡ some output')
        × EncodedTo payload noise indices 56 output'
  unfolding encode_loop
  encode_loop-EncodedTo zero i output e inv =
      let done : i ≡ 56 = omega arith in (output, refl, rw done at inv)
  encode_loop-EncodedTo (suc left) i output e inv =
      let step = encode_bit-EncodedTo i output (omega arith) inv in
      let rest = encode_loop-EncodedTo left (i + 1) step.0 (omega arith) step.2 in
      (rest.0, rw (step.1) (rest.1), rest.2)

  fresh : EncodedTo payload noise indices 0 (replicate 14 0)
  fresh = record {
    size = refl;
    bytes = λ i. omega (arith, get_or-replicate {A = ℕ} 14 0 i);
    slots = λ s h. ground (arith, bit_at-replicate 14 (position indices s));
  }

  -- The loop returns, and each slot of its output holds its bit.
  pub encode_loop_lem :
      (output : List ℕ) × (encode_loop payload noise indices 56 0 (replicate 14 0) ≡ some output)
      × EncodedTo payload noise indices 56 output
  encode_loop_lem = encode_loop-EncodedTo 56 0 (replicate 14 0) refl fresh

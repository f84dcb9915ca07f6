-- ===== src/Algo/Mask/Weight.antt =====
-- The mask has exactly 64 of its 128 bits set: each round sets a bit that was clear.
use quic_hop.Base.{
  ℕ, zero, suc, ◌+◌, ◌<◌, ◌≤◌, ◌≡◌, refl, ap, ◌∙◌, List, some, arith, length, get_or,
  get_elem?-eq-get_or, replicate,
}
use native.Mathlib.Decide.{ℕ_discrete}
use quic_hop.Base.Bits.{bit_and_seven}
use quic_hop.Base.BitArray.{or_bit, bit_at, bit_at-replicate, SetsBit, or_bit-SetsBit}
use quic_hop.Algo.Rng.{new_simple_rng, intn, intn-lt}
use quic_hop.Algo.Shuffle.{IsPermutation, upto, upto-IsPermutation, shuffle_loop-IsPermutation}
use quic_hop.Algo.Mask.{mark, mask_loop, mask_seed, compute_mask}

-- How many of the bits below `n` are set.
pub weight : ℕ → List ℕ → ℕ
weight zero mask = 0
weight (suc n) mask = bit_at mask n + weight n mask

weight_agree :
    (n : ℕ) (a b : List ℕ) → ((q : ℕ) → q < n → bit_at a q ≡ bit_at b q) → weight n a ≡ weight n b
unfolding weight
weight_agree zero a b h = refl
weight_agree (suc n) a b h =
    omega (arith, h n (omega arith), weight_agree n a b (λ q p. h q (omega arith)))

-- Setting a clear bit below `n` adds one.
weight-SetsBit :
    (n p : ℕ) (a b : List ℕ) → p < n → bit_at a p ≡ 0 → SetsBit a p b → weight n b ≡ weight n a + 1
unfolding weight
weight-SetsBit zero p a b h clear s = absurd (omega arith)
weight-SetsBit (suc n) p a b h clear s = elim (ℕ_discrete p n) [
  | yes e ↦
      let top : bit_at b n ≡ 1 = rw e at s.here in
      let was : bit_at a n ≡ 0 = rw e at clear in
      omega (arith, weight_agree n b a (λ q l. s.there q (omega arith)))
  | no d ↦ omega (arith, s.there n d, weight-SetsBit n p a b (omega arith) clear s)
]

weight-replicate : (n k : ℕ) → weight n (replicate k 0) ≡ 0
unfolding weight
weight-replicate zero k = refl
weight-replicate (suc n) k = omega (arith, bit_at-replicate k n, weight-replicate n k)

mark-eq-or_bit : (mask : List ℕ) (idx : ℕ) → mark mask idx ≡ or_bit mask idx
unfolding mark or_bit
mark-eq-or_bit mask idx = rw bit_and_seven

-- The mask after the rounds below `i`.
record MarkedTo (indices : List ℕ) (i : ℕ) (mask : List ℕ) : Type 0 where
  size : length mask ≡ 16
  heavy : weight 128 mask ≡ i
  clear : (s : ℕ) → i ≤ s → s < 128 → bit_at mask (get_or indices s 0) ≡ 0

module _ (indices : List ℕ) (perm : IsPermutation 128 indices) where
  mark-MarkedTo :
      (i : ℕ) (mask : List ℕ)
      → i < 128
      → MarkedTo indices i mask
      → (mask' : List ℕ) × (mark mask (get_or indices i 0) ≡ some mask')
        × MarkedTo indices (i + 1) mask'
  mark-MarkedTo i mask h e =
      let w = or_bit-SetsBit mask (get_or indices i 0) (omega (arith, e.size, perm.below i h)) in
      (
        w.0,
        mark-eq-or_bit mask (get_or indices i 0) ∙ w.1,
        record {
          size = w.2.same_length ∙ e.size;
          heavy =
              weight-SetsBit 128 (get_or indices i 0) mask w.0 (perm.below i h)
                (e.clear i (omega arith) h) w.2
              ∙ ap (λ (t : ℕ). t + 1) e.heavy;
          clear = λ s l u.
              w.2.there (get_or indices s 0)
                (λ same. absurd (omega (arith, perm.distinct i s h u same)))
              ∙ e.clear s (omega arith) u;
        },
      )

  mask_loop-MarkedTo :
      (left i : ℕ) (mask : List ℕ)
      → i + left ≡ 64
      → MarkedTo indices i mask
      → (mask' : List ℕ) × (mask_loop indices left i mask ≡ some mask') × MarkedTo indices 64 mask'
  unfolding mask_loop
  mask_loop-MarkedTo zero i mask e inv =
      let done : i ≡ 64 = omega arith in (mask, refl, rw done at inv)
  mask_loop-MarkedTo (suc left) i mask e inv =
      let step = mark-MarkedTo i mask (omega arith) inv in
      let rest = mask_loop-MarkedTo left (i + 1) step.0 (omega arith) step.2 in
      (
        rest.0,
        rw (get_elem?-eq-get_or indices i 0 (omega (arith, perm.size)), step.1) (rest.1),
        rest.2,
      )

  blank : MarkedTo indices 0 (replicate 16 0)
  blank = record {
    size = refl;
    heavy = weight-replicate 128 16;
    clear = λ s l u. bit_at-replicate 16 (get_or indices s 0);
  }

-- For every key a mask is computed with no index out of range, of 16 bytes, with exactly 64 bits set.
pub compute_mask-weight :
    (key : List ℕ)
    → (mask : List ℕ) × (compute_mask key ≡ some mask) × (length mask ≡ 16) × (weight 128 mask ≡ 64)
unfolding compute_mask
compute_mask-weight key =
    let idx =
      shuffle_loop-IsPermutation intn intn-lt 128 127 (upto 0 128) (new_simple_rng (mask_seed key))
        (omega arith) (upto-IsPermutation 128) in
    let m = mask_loop-MarkedTo idx.0 idx.2 64 0 (replicate 16 0) refl (blank idx.0 idx.2) in
    (m.0, rw (idx.1) (m.1), m.2.size, m.2.heavy)

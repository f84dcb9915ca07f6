-- ===== src/Algo/Indices.antt =====
-- The index table: for every 16-bit seed a shuffle of the 112 bit positions. `sync.Once` computes
-- it on the first use; here it is the value that every use finds.
use quic_hop.Base.{
  ℕ, zero, suc, ◌+◌, ◌-◌, ◌^◌, ◌<◌, ◌≡◌, refl, ap, ◌∙◌, List, [], ◌∷◌, map, Option, some, arith,
  bit_xor, length, get_elem?, get_or, u8, u16, ◌>>=◌,
}
use quic_hop.Config.{encoded_bits, seed_bits}
use quic_hop.Algo.Fnv.{shared_secret_hash}
use quic_hop.Algo.Rng.{MathRand}
use quic_hop.Algo.Shuffle.{
  upto, shuffle_loop, IsPermutation, upto-IsPermutation, shuffle_loop-IsPermutation,
}

module _ (m : MathRand) where
  -- `mrand.New(mrand.NewSource(int64(uint16(s)) ^ sharedSecretHash))`, after one `Uint64`.
  seeded : ℕ → m.Rand
  seeded s = (m.uint64 (m.new_rand (bit_xor (u16 s) shared_secret_hash))).1

  -- One row of the table, each index stored as a byte.
  unfoldable pub indices_row : ℕ → Option (List ℕ)
  unfolding seeded
  indices_row s = do
    idx ← shuffle_loop m.intn (encoded_bits - 1) (upto 0 encoded_bits) (seeded s)
    some (map u8 idx)

  -- The rows from seed `s` on, with `left` still to compute.
  unfoldable pub precompute_loop : ℕ → ℕ → Option (List (List ℕ))
  unfolding indices_row
  precompute_loop zero s = some []
  precompute_loop (suc left) s = do
    row ← indices_row s
    rows ← precompute_loop left (suc s)
    some (row ∷ rows)

  unfoldable pub precompute_indices : Option (List (List ℕ))
  unfolding precompute_loop
  precompute_indices = precompute_loop (2 ^ seed_bits) 0

  unfoldable pub shuffled_indices : ℕ → Option (List ℕ)
  unfolding precompute_indices
  shuffled_indices rng_seed = do table ← precompute_indices; get_elem? table rng_seed

length-map-u8 : (xs : List ℕ) → length (map u8 xs) ≡ length xs
length-map-u8 [] = refl
length-map-u8 (x ∷ xs) = ap suc (length-map-u8 xs)

get_or-map-u8 : (xs : List ℕ) (s : ℕ) → get_or (map u8 xs) s 0 ≡ u8 (get_or xs s 0)
get_or-map-u8 [] s = omega arith
get_or-map-u8 (x ∷ xs) zero = refl
get_or-map-u8 (x ∷ xs) (suc s) = get_or-map-u8 xs s

-- Positions below 112 survive the conversion to a byte.
map-u8-IsPermutation : (xs : List ℕ) → IsPermutation 112 xs → IsPermutation 112 (map u8 xs)
map-u8-IsPermutation xs p = record {
  size = length-map-u8 xs ∙ p.size;
  below = λ s h. omega (arith, get_or-map-u8 xs s, p.below s h);
  distinct = λ s t h k e.
      p.distinct s t h k
        (omega (arith, get_or-map-u8 xs s, get_or-map-u8 xs t, p.below s h, p.below t k));
}

module _ (m : MathRand) where
  pub indices_row-IsPermutation :
      (s : ℕ) → (row : List ℕ) × (indices_row m s ≡ some row) × IsPermutation encoded_bits row
  unfolding indices_row
  indices_row-IsPermutation s =
      let idx =
        shuffle_loop-IsPermutation m.intn m.intn_lt 112 111 (upto 0 112) (seeded m s) (omega arith)
          (upto-IsPermutation 112) in
      (map u8 idx.0, rw (idx.1), map-u8-IsPermutation idx.0 idx.2)

  -- The table holds, at each offset, the row of that seed.
  precompute_loop_lem :
      (left s : ℕ)
      → (rows : List (List ℕ)) × (precompute_loop m left s ≡ some rows)
        × ((k : ℕ) → k < left → get_elem? rows k ≡ indices_row m (s + k))
  unfolding precompute_loop
  precompute_loop_lem zero s = ([], refl, λ k h. absurd (omega arith))
  precompute_loop_lem (suc left) s =
      let first = indices_row-IsPermutation s in
      let rest = precompute_loop_lem left (suc s) in
      (first.0 ∷ rest.0, rw (first.1, rest.1), at first.0 first.1 rest.0 rest.2)
    where
      at :
          (row : List ℕ)
          → indices_row m s ≡ some row
          → (rows : List (List ℕ))
          → ((k : ℕ) → k < left → get_elem? rows k ≡ indices_row m (suc s + k))
          → (k : ℕ) → k < suc left
          → get_elem? (row ∷ rows) k ≡ indices_row m (s + k)
      at row e rows h zero p = let same : s + 0 ≡ s = omega arith in rw (same, e)
      at row e rows h (suc k) p =
          let same : s + suc k ≡ suc s + k = omega arith in rw same (h k (omega arith))

  shuffled_indices-eq-indices_row :
      (n s : ℕ) → s < n → (precompute_loop m n 0 >>= λ table. get_elem? table s) ≡ indices_row m s
  shuffled_indices-eq-indices_row n s h =
      let t = precompute_loop_lem n 0 in
      let same : 0 + s ≡ s = omega arith in rw (t.1) (rw same at (t.2 s h))

  -- Every 16-bit seed has a row, and it is a permutation of the 112 positions.
  pub shuffled_indices-IsPermutation :
      (s : ℕ)
      → s < 2 ^ 16
      → (row : List ℕ) × (shuffled_indices m s ≡ some row) × IsPermutation encoded_bits row
  unfolding shuffled_indices
  shuffled_indices-IsPermutation s h =
      let row = indices_row-IsPermutation s in
      (row.0, shuffled_indices-eq-indices_row (2 ^ 16) s h ∙ row.1, row.2)

  -- A row of the table is found without the rest of it.
  pub shuffled_indices_at : (s : ℕ) → s < 2 ^ 16 → shuffled_indices m s ≡ indices_row m s
  unfolding shuffled_indices
  shuffled_indices_at s h = shuffled_indices-eq-indices_row (2 ^ 16) s h

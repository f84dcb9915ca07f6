-- ===== src/Algo/Shuffle.antt =====
-- The Fisher-Yates loop that algo.go runs, over `math/rand` for the index table and over
-- `SimpleRNG` for the mask.
use quic_hop.Base.{
  ℕ, zero, suc, ◌+◌, ◌<◌, ◌≡◌, refl, sym, ◌∙◌, List, [], ◌∷◌, Option, some, arith, length,
  get_elem?, get_or, set, ◌>>=◌, length-set, get_elem?-eq-get_or, get_or-set_self, get_or-set_ne,
  ◌==◌, if◌then◌else◌,
}

-- `xs[i], xs[j] = xs[j], xs[i]`
unfoldable pub swap : List ℕ → ℕ → ℕ → Option (List ℕ)
swap xs i j = do a ← get_elem? xs i; b ← get_elem? xs j; some (set (set xs i b) j a)

-- `xs[k] = k` over a fresh slice, from index `i` on with `n` left.
unfoldable pub upto : ℕ → ℕ → List ℕ
upto i zero = []
upto i (suc n) = i ∷ upto (suc i) n

-- The list holds every number below `n` exactly once.
pub record IsPermutation (n : ℕ) (xs : List ℕ) : Type 0 where
  pub size : length xs ≡ n
  pub below : (s : ℕ) → s < n → get_or xs s 0 < n
  pub distinct : (s t : ℕ) → s < n → t < n → get_or xs s 0 ≡ get_or xs t 0 → s ≡ t

module _ {R : Type 0} (draw : ℕ → R → ℕ × R) where
  -- `for i := k; i > 0; i--`
  unfoldable pub shuffle_loop : ℕ → List ℕ → R → Option (List ℕ)
  unfolding swap
  shuffle_loop zero xs r = some xs
  shuffle_loop (suc i) xs r = do
    ys ← swap xs (suc i) (draw (suc i + 1) r).0
    shuffle_loop i ys (draw (suc i + 1) r).1

length-upto : (i n : ℕ) → length (upto i n) ≡ n
unfolding upto
length-upto i zero = refl
length-upto i (suc n) = omega (arith, length-upto (suc i) n)

get_or-upto : (i n s : ℕ) → s < n → get_or (upto i n) s 0 ≡ i + s
unfolding upto
get_or-upto i zero s h = absurd (omega arith)
get_or-upto i (suc n) zero h = omega arith
get_or-upto i (suc n) (suc s) h = omega (arith, get_or-upto (suc i) n s (omega arith))

pub upto-IsPermutation : (n : ℕ) → IsPermutation n (upto 0 n)
upto-IsPermutation n = record {
  size = length-upto 0 n;
  below = λ s h. omega (arith, get_or-upto 0 n s h);
  distinct = λ s t h k e. omega (arith, get_or-upto 0 n s h, get_or-upto 0 n t k);
}

abbrev transpose : ℕ → ℕ → ℕ → ℕ
transpose i j s = if s == j then i else if s == i then j else s

get_or-swap :
    (xs : List ℕ) (i j s : ℕ)
    → i < length xs
    → j < length xs
    → get_or (set (set xs i (get_or xs j 0)) j (get_or xs i 0)) s 0 ≡ get_or xs (transpose i j s) 0
get_or-swap xs i j s hi hj = ground (
  arith,
  get_or-set_self (set xs i (get_or xs j 0)) j (get_or xs i 0) 0,
  get_or-set_ne (set xs i (get_or xs j 0)) j s (get_or xs i 0) 0,
  get_or-set_self xs i (get_or xs j 0) 0,
  get_or-set_ne xs i s (get_or xs j 0) 0,
  length-set xs i (get_or xs j 0),
)

-- A swap in range returns, and permutes.
swap-IsPermutation :
    (n : ℕ) (xs : List ℕ) (i j : ℕ)
    → i < n
    → j < n
    → IsPermutation n xs
    → (ys : List ℕ) × (swap xs i j ≡ some ys) × IsPermutation n ys
unfolding swap
swap-IsPermutation n xs i j hi hj p = (
  set (set xs i (get_or xs j 0)) j (get_or xs i 0),
  rw (
    get_elem?-eq-get_or xs i 0 (omega (arith, p.size)),
    get_elem?-eq-get_or xs j 0 (omega (arith, p.size)),
  ),
  record {
    size = length-set _ _ _ ∙ length-set _ _ _ ∙ p.size;
    below = λ s h. rw (at s) (p.below (transpose i j s) (moved s h));
    distinct = λ s t h k e.
        let same : transpose i j s ≡ transpose i j t =
          p.distinct (transpose i j s) (transpose i j t) (moved s h) (moved t k)
            (sym (at s) ∙ e ∙ at t) in
        ground arith;
  },
)
  where
    at :
        (s : ℕ)
        → get_or (set (set xs i (get_or xs j 0)) j (get_or xs i 0)) s 0
          ≡ get_or xs (transpose i j s) 0
    at s = get_or-swap xs i j s (omega (arith, p.size)) (omega (arith, p.size))

    moved : (s : ℕ) → s < n → transpose i j s < n
    moved s h = ground arith

module _ {R : Type 0} (draw : ℕ → R → ℕ × R)
    (draw_lt : (n : ℕ) (r : R) → 0 < n → (draw n r).0 < n) where
  -- Shuffling never indexes out of range, and its result is a permutation.
  pub shuffle_loop-IsPermutation :
      (n i : ℕ) (xs : List ℕ) (r : R)
      → i < n
      → IsPermutation n xs
      → (ys : List ℕ) × (shuffle_loop draw i xs r ≡ some ys) × IsPermutation n ys
  unfolding shuffle_loop
  shuffle_loop-IsPermutation n zero xs r h p = (xs, refl, p)
  shuffle_loop-IsPermutation n (suc i) xs r h p =
      let first =
        swap-IsPermutation n xs (suc i) (draw (suc i + 1) r).0 h
          (omega (arith, draw_lt (suc i + 1) r (omega arith))) p in
      let rest =
        shuffle_loop-IsPermutation n i first.0 (draw (suc i + 1) r).1 (omega arith) first.2 in
      (rest.0, rw (first.1) (rest.1), rest.2)

-- ===== src/Algo/Rng.antt =====
-- Random numbers: algo.go's `SimpleRNG`, and the interface of Go's `math/rand`, whose sequence the
-- program fixes by a seed but whose algorithm it only calls.
use quic_hop.Base.{ℕ, ◌+◌, ◌*◌, ◌%◌, ◌<◌, u64, arith}

-- One step of the 64-bit linear congruential generator.
unfoldable pub lcg : ℕ → ℕ
lcg state = u64 (state * 6364136223846793005 + 1442695040888963407)

pub record SimpleRng : Type 0 where
  pub state : ℕ

-- `uint64(seed)` keeps the bit pattern.
unfoldable pub new_simple_rng : ℕ → SimpleRng
new_simple_rng seed = record { state = seed }

-- The new state is the value.
unfoldable pub next : SimpleRng → ℕ × SimpleRng
unfolding lcg
next r = (lcg r.state, record { state = lcg r.state })

unfoldable pub intn : ℕ → SimpleRng → ℕ × SimpleRng
unfolding next
intn n r = ((next r).0 % n, (next r).1)

pub intn-lt : (n : ℕ) (r : SimpleRng) → 0 < n → (intn n r).0 < n
unfolding intn
intn-lt n r h = omega arith

-- `rand.New(rand.NewSource(seed))` and the methods that the program calls. The bounds are those
-- that the package documents.
pub record MathRand : Type 1 where
  pub Rand : Type 0
  pub new_rand : ℕ → Rand
  pub uint64 : Rand → ℕ × Rand
  pub uint32 : Rand → ℕ × Rand
  pub intn : ℕ → Rand → ℕ × Rand
  pub intn_lt : (n : ℕ) (r : Rand) → 0 < n → (intn n r).0 < n

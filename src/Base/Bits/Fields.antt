-- ===== src/Base/Bits/Fields.antt =====
-- `|` of disjoint fields is a sum.
use Prim.Native.Nat.{ℕ, zero, suc, ◌+◌, ◌*◌, ◌/◌, ◌^◌, ◌<◌, bit_or, bit_or-bitwise}
use mathlib.Core.Path.{◌≡◌, ap}
use native.Mathlib.Nat.{pow-suc}
use native.Mathlib.Omega.{arith}
use quic_hop.Base.Bits.Step.{bit_or_step}

zero-bit_or : (b : ℕ) → bit_or 0 b ≡ b
zero-bit_or b = bit_or-bitwise 0 b

mul-two-pow-suc : (b k : ℕ) → b * 2 ^ suc k ≡ 2 * (b * 2 ^ k)
mul-two-pow-suc b k = omega (arith, ap (λ (t : ℕ). b * t) (pow-suc 2 k))

-- A low field below `2 ^ k` beside a high field shifted by `k`.
pub bit_or_shifted : (k a b : ℕ) → a < 2 ^ k → bit_or a (b * 2 ^ k) ≡ a + b * 2 ^ k
bit_or_shifted zero zero b h = omega (arith, zero-bit_or (b * 1))
bit_or_shifted zero (suc a) b h = absurd (omega arith)
bit_or_shifted (suc k) a b h = ground (
  arith,
  bit_or_step a (b * 2 ^ suc k),
  mul-two-pow-suc b k,
  pow-suc 2 k,
  bit_or_shifted k (a / 2) b (omega (arith, pow-suc 2 k)),
)

-- ===== src/Base/Bits.antt =====
-- Bits of machine words: `|` and `&` digit by digit, from the recursion the native operations mean.
mod Step
pub mod Fields
use Step.{bit_or_step, bit_and_step}
use Prim.Native.Nat.{ℕ, zero, suc, ◌+◌, ◌*◌, ◌/◌, ◌%◌, ◌^◌, ◌<◌, max, bit_and, bit_or, bit_xor}
use mathlib.Core.Path.{◌≡◌, refl, ap}
use mathlib.Core.Logic.{◌≢◌, ◌⊎◌, inl, inr}
use native.Mathlib.Nat.{pow-suc, pow-succ', div-div-eq-div-mul}
use native.Mathlib.Omega.{arith}

-- The bit of weight `2 ^ k`.
abbrev pub testbit : ℕ → ℕ → ℕ
testbit a zero = a % 2
testbit a (suc k) = testbit (a / 2) k

pub testbit-lt : (a k : ℕ) → testbit a k < 2
testbit-lt a zero = omega arith
testbit-lt a (suc k) = testbit-lt (a / 2) k

pub zero-testbit : (k : ℕ) → testbit 0 k ≡ 0
zero-testbit zero = refl
zero-testbit (suc k) = zero-testbit k

pub testbit-bit_or : (a b k : ℕ) → testbit (bit_or a b) k ≡ max (testbit a k) (testbit b k)
testbit-bit_or a b zero = omega (arith, bit_or_step a b)
testbit-bit_or a b (suc k) =
    let half : bit_or a b / 2 ≡ bit_or (a / 2) (b / 2) = omega (arith, bit_or_step a b) in
    rw half (testbit-bit_or (a / 2) (b / 2) k)

pub bit_or-lt : (n a b : ℕ) → a < 2 ^ n → b < 2 ^ n → bit_or a b < 2 ^ n
bit_or-lt zero zero zero h k = omega (arith, bit_or_step 0 0)
bit_or-lt zero zero (suc b) h k = absurd (omega arith)
bit_or-lt zero (suc a) b h k = absurd (omega arith)
bit_or-lt (suc n) a b h k = omega (
  arith,
  pow-suc 2 n,
  bit_or_step a b,
  bit_or-lt n (a / 2) (b / 2) (omega (arith, pow-suc 2 n)) (omega (arith, pow-suc 2 n)),
)

pub testbit-pow_self : (k : ℕ) → testbit (2 ^ k) k ≡ 1
testbit-pow_self zero = refl
testbit-pow_self (suc k) =
    let half : 2 ^ suc k / 2 ≡ 2 ^ k = omega (arith, pow-suc 2 k) in rw half (testbit-pow_self k)

pub testbit-pow_ne : (k j : ℕ) → k ≢ j → testbit (2 ^ k) j ≡ 0
testbit-pow_ne zero zero h = absurd (h refl)
testbit-pow_ne zero (suc j) h = zero-testbit j
testbit-pow_ne (suc k) zero h = omega (arith, pow-suc 2 k)
testbit-pow_ne (suc k) (suc j) h =
    let half : 2 ^ suc k / 2 ≡ 2 ^ k = omega (arith, pow-suc 2 k) in
    rw half (testbit-pow_ne k j (λ e. h (ap suc e)))

-- `(a >> k) & 1`, as arithmetic.
pub shr-testbit : (a k : ℕ) → a / 2 ^ k % 2 ≡ testbit a k
shr-testbit a zero = omega arith
shr-testbit a (suc k) =
    let split : a / 2 ^ suc k ≡ a / 2 / 2 ^ k = rw (div-div-eq-div-mul, pow-succ') in
    rw split (shr-testbit (a / 2) k)

bit_and-zero_fuel : (n a : ℕ) → a < n → bit_and a 0 ≡ 0
bit_and-zero_fuel zero a h = absurd (omega arith)
bit_and-zero_fuel (suc n) zero h = omega (arith, bit_and_step 0 0)
bit_and-zero_fuel (suc n) (suc a) h =
    omega (arith, bit_and_step (suc a) 0, bit_and-zero_fuel n (suc a / 2) (omega arith))

pub bit_and-one : (a : ℕ) → bit_and a 1 ≡ a % 2
bit_and-one a = omega (arith, bit_and_step a 1, bit_and-zero_fuel (suc a) (a / 2) (omega arith))

pub bit_and_seven : (a : ℕ) → bit_and a 7 ≡ a % 8
bit_and_seven a = omega (arith, bit_and_step a 7, bit_and_step (a / 2) 3, bit_and-one (a / 2 / 2))

-- Words of one width that agree in every bit are equal.
pub testbit_ext :
    (n a b : ℕ) → a < 2 ^ n → b < 2 ^ n → ((k : ℕ) → k < n → testbit a k ≡ testbit b k) → a ≡ b
testbit_ext zero a b h k e = omega arith
testbit_ext (suc n) a b h k e =
    let halves : a / 2 ≡ b / 2 =
      testbit_ext n (a / 2) (b / 2) (omega (arith, pow-suc 2 n)) (omega (arith, pow-suc 2 n))
        (λ j p. e (suc j) (omega arith)) in
    omega (arith, e 0 (omega arith))

two_bits : (a : ℕ) → a < 2 → (a ≡ 0) ⊎ (a ≡ 1)
two_bits a h = omega arith

-- `^` of two bits twice by the same bit gives the first bit back.
pub bit_xor_undo : (r m : ℕ) → r < 2 → m < 2 → bit_xor (bit_xor r m) r ≡ m
bit_xor_undo r m h k = ground (arith, two_bits r h, two_bits m k)

pub bit_xor-lt : (r m : ℕ) → r < 2 → m < 2 → bit_xor r m < 2
bit_xor-lt r m h k = ground (arith, two_bits r h, two_bits m k)

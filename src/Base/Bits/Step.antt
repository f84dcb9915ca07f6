-- ===== src/Base/Bits/Step.antt =====
-- `|` and `&` of native numbers by their lowest binary digit. The prelude gives them by a recursion
-- whose fuel is the first operand; fuel beyond that changes nothing.
use Prim.Native.Nat.{
  ℕ, zero, suc, ◌+◌, ◌-◌, ◌*◌, ◌/◌, ◌%◌, ◌≤◌, bit_and, bit_or, min, max, digits, bitwise,
  bit_and-bitwise, bit_or-bitwise,
}
use mathlib.Core.Path.{◌≡◌, refl, ap, ◌∙◌}
use native.Mathlib.Nat.{add-zero}
use native.Mathlib.Omega.{arith}

module _ (tail : ℕ → ℕ) (digit : ℕ → ℕ → ℕ) where
  one_spare :
      (fuel x y : ℕ) → x ≤ fuel → digits tail digit (suc fuel) x y ≡ digits tail digit fuel x y
  one_spare zero zero y h = refl
  one_spare (suc fuel) zero y h = refl
  one_spare zero (suc x) y h = absurd (omega arith)
  one_spare (suc fuel) (suc x) y h =
      ap (λ (high : ℕ). high * 2 + digit (suc x % 2) (y % 2))
        (one_spare fuel (suc x / 2) (y / 2) (omega arith))

  spare :
      (extra fuel x y : ℕ)
      → x ≤ fuel
      → digits tail digit (fuel + extra) x y ≡ digits tail digit fuel x y
  spare zero fuel x y h = rw (add-zero fuel) refl
  spare (suc extra) fuel x y h =
      let next : fuel + suc extra ≡ suc (fuel + extra) = omega arith in
      rw next (one_spare (fuel + extra) x y (omega arith) ∙ spare extra fuel x y h)

  -- The digits above the lowest one are those of the halves.
  halves :
      (x y : ℕ) → digits tail digit x (suc x / 2) (y / 2) ≡ bitwise tail digit (suc x / 2) (y / 2)
  halves x y =
      let whole : suc x / 2 + (x - suc x / 2) ≡ x = omega arith in
      let same = spare (x - suc x / 2) (suc x / 2) (suc x / 2) (y / 2) (omega arith) in
      rw whole at same

pub bit_or_step : (x y : ℕ) → bit_or x y ≡ bit_or (x / 2) (y / 2) * 2 + max (x % 2) (y % 2)
bit_or_step zero y = simp bit_or-bitwise (omega arith)
bit_or_step (suc x) y = simp bit_or-bitwise (omega (arith, halves (λ b. b) max x y))

pub bit_and_step : (x y : ℕ) → bit_and x y ≡ bit_and (x / 2) (y / 2) * 2 + min (x % 2) (y % 2)
bit_and_step zero y = simp bit_and-bitwise (omega arith)
bit_and_step (suc x) y = simp bit_and-bitwise (omega (arith, halves (λ b. 0) min x y))

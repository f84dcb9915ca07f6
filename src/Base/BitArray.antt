-- ===== src/Base/BitArray.antt =====
-- Byte arrays addressed bit by bit: bit `p` is bit `p % 8` of byte `p / 8`. The accesses
-- `a[p>>3] |= 1 << (p & 7)` and `(a[p>>3] >> (p & 7)) & 1` of the CID codec, with their laws.
use Prim.Native.Nat.{ℕ, zero, suc, ◌+◌, ◌*◌, ◌/◌, ◌%◌, ◌^◌, ◌<◌, bit_and, bit_or}
use mathlib.Core.Path.{◌≡◌, ap}
use mathlib.Core.Logic.{◌≢◌}
use mathlib.Core.Option.{Option, some}
use mathlib.Core.List.{List, [], ◌∷◌, ◌++◌}
use native.Mathlib.Omega.{arith}
use native.Mathlib.Nat.{pow-le-pow_right}
use native.Mathlib.Decide.{ℕ_discrete}
use quic_hop.Base.Tests.{◌>>=◌}
use quic_hop.Base.Word.{u8, ◌<<<◌, ◌>>>◌}
use quic_hop.Base.Lists.{
  length, get_elem?, get_or, set, take, replicate, length-set, get_elem?-eq-get_or, get_or-set_self,
  get_or-set_ne, get_or-replicate, get_or_ext,
}
use quic_hop.Base.Bits.{
  testbit, testbit-lt, zero-testbit, testbit-bit_or, bit_or-lt, testbit-pow_self, testbit-pow_ne,
  shr-testbit, bit_and-one, bit_and_seven, testbit_ext,
}

-- `arr[p>>3] |= (1 << (p & 7))`
unfoldable pub or_bit : List ℕ → ℕ → Option (List ℕ)
or_bit arr p = do
  b ← get_elem? arr (p >>> 3)
  some (set arr (p >>> 3) (bit_or b (u8 (1 <<< bit_and p 7))))

-- `(arr[p>>3] >> (p & 7)) & 1`
unfoldable pub read_bit : List ℕ → ℕ → Option ℕ
read_bit arr p = do b ← get_elem? arr (p >>> 3); some (bit_and (b >>> bit_and p 7) 1)

pub bit_at : List ℕ → ℕ → ℕ
bit_at arr p = testbit (get_or arr (p / 8) 0) (p % 8)

abbrev pub IsBytes : List ℕ → Type 0
IsBytes xs = (i : ℕ) → get_or xs i 0 < 256

pub bit_at-lt : (arr : List ℕ) (p : ℕ) → bit_at arr p < 2
unfolding bit_at
bit_at-lt arr p = testbit-lt (get_or arr (p / 8) 0) (p % 8)

pub bit_at-replicate : (n p : ℕ) → bit_at (replicate n 0) p ≡ 0
unfolding bit_at
bit_at-replicate n p = rw (get_or-replicate {A = ℕ} n 0 (p / 8)) (zero-testbit (p % 8))

pub read_bit_lem :
    (arr : List ℕ) (p : ℕ) → p / 8 < length arr → read_bit arr p ≡ some (bit_at arr p)
unfolding read_bit bit_at
read_bit_lem arr p h =
    rw (get_elem?-eq-get_or arr (p / 8) 0 h, bit_and_seven p, bit_and-one)
      (ap some (shr-testbit (get_or arr (p / 8) 0) (p % 8)))

pub take-IsBytes : (n : ℕ) (xs : List ℕ) → IsBytes xs → IsBytes (take n xs)
take-IsBytes zero xs h i = omega arith
take-IsBytes (suc n) [] h i = omega arith
take-IsBytes (suc n) (x ∷ xs) h zero = h 0
take-IsBytes (suc n) (x ∷ xs) h (suc i) = take-IsBytes n xs (λ j. h (suc j)) i

pub append-IsBytes : (xs ys : List ℕ) → IsBytes xs → IsBytes ys → IsBytes (xs ++ ys)
append-IsBytes [] ys h k i = k i
append-IsBytes (x ∷ xs) ys h k zero = h 0
append-IsBytes (x ∷ xs) ys h k (suc i) = append-IsBytes xs ys (λ j. h (suc j)) k i

-- `out` is `arr` with bit `p` set.
pub record SetsBit (arr : List ℕ) (p : ℕ) (out : List ℕ) : Type 0 where
  pub same_length : length out ≡ length arr
  pub here : bit_at out p ≡ 1
  pub there : (q : ℕ) → p ≢ q → bit_at out q ≡ bit_at arr q
  pub bytes : IsBytes arr → IsBytes out

module _ (arr : List ℕ) (p : ℕ) (h : p / 8 < length arr) where
  abbrev stored : ℕ
  stored = bit_or (get_or arr (p / 8) 0) (2 ^ (p % 8))

  or_bit-eq-set : or_bit arr p ≡ some (set arr (p / 8) stored)
  unfolding or_bit
  or_bit-eq-set =
      rw (get_elem?-eq-get_or arr (p / 8) 0 h, bit_and_seven p)
        (ap (λ (v : ℕ). some (set arr (p / 8) (bit_or (get_or arr (p / 8) 0) v)))
          (omega (arith, pow-le-pow_right {n = 2} (omega arith) {i = p % 8} {j = 7} (omega arith))))

  set-here : bit_at (set arr (p / 8) stored) p ≡ 1
  unfolding bit_at
  set-here =
      rw (get_or-set_self arr (p / 8) stored 0 h, testbit-bit_or)
        (omega (arith, testbit-pow_self (p % 8), testbit-lt (get_or arr (p / 8) 0) (p % 8)))

  set-there : (q : ℕ) → p ≢ q → bit_at (set arr (p / 8) stored) q ≡ bit_at arr q
  unfolding bit_at
  set-there q ne = elim (ℕ_discrete (p / 8) (q / 8)) [
    | yes e ↦ rw (← e) (
        rw (get_or-set_self arr (p / 8) stored 0 h, testbit-bit_or)
          (omega (arith, testbit-pow_ne (p % 8) (q % 8) (omega arith))))
    | no d ↦ rw (get_or-set_ne arr (p / 8) (q / 8) stored 0 d)
  ]

  set-IsBytes : IsBytes arr → IsBytes (set arr (p / 8) stored)
  set-IsBytes b i = elim (ℕ_discrete (p / 8) i) [
    | yes e ↦ rw (← e) (
        rw (get_or-set_self arr (p / 8) stored 0 h) (
          bit_or-lt 8 (get_or arr (p / 8) 0) (2 ^ (p % 8)) (b (p / 8)) (
            omega
              (arith, pow-le-pow_right {n = 2} (omega arith) {i = p % 8} {j = 7} (omega arith)))))
    | no d ↦ rw (get_or-set_ne arr (p / 8) i stored 0 d) (b i)
  ]

  -- In range, the update returns, and sets its bit alone.
  pub or_bit-SetsBit : (out : List ℕ) × (or_bit arr p ≡ some out) × SetsBit arr p out
  or_bit-SetsBit = (
    set arr (p / 8) stored,
    or_bit-eq-set,
    record {
      same_length = length-set arr (p / 8) stored;
      here = set-here;
      there = set-there;
      bytes = set-IsBytes;
    },
  )

-- Byte arrays of one length that agree in every bit are equal.
pub bit_at_ext :
    (xs ys : List ℕ)
    → length xs ≡ length ys
    → IsBytes xs
    → IsBytes ys
    → ((p : ℕ) → p < 8 * length xs → bit_at xs p ≡ bit_at ys p)
    → xs ≡ ys
unfolding bit_at
bit_at_ext xs ys e bx by h = get_or_ext 0 xs ys e λ i below.
    testbit_ext 8 (get_or xs i 0) (get_or ys i 0) (bx i) (by i) λ k small.
      let at_byte : (8 * i + k) / 8 ≡ i = omega arith in
      let at_bit : (8 * i + k) % 8 ≡ k = omega arith in
      rw (at_byte, at_bit) at (h (8 * i + k) (omega arith))

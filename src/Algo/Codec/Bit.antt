-- ===== src/Algo/Codec/Bit.antt =====
-- The conditional write that both loops of the codec end in.
use quic_hop.Base.{ℕ, ◌/◌, ◌<◌, ◌≡◌, refl, ◌≢◌, inl, inr, List, some, arith, length, ◌⊎◌}
use quic_hop.Base.BitArray.{bit_at, IsBytes, or_bit-SetsBit}
use quic_hop.Algo.Codec.{or_bit_if}

-- `out` is `arr` with bit `p` made `b`.
pub record Writes (arr : List ℕ) (p b : ℕ) (out : List ℕ) : Type 0 where
  pub same_length : length out ≡ length arr
  pub here : bit_at out p ≡ b
  pub there : (q : ℕ) → p ≢ q → bit_at out q ≡ bit_at arr q
  pub bytes : IsBytes arr → IsBytes out

bit_cases : (b : ℕ) → b < 2 → (b ≡ 0) ⊎ (b ≡ 1)
bit_cases b h = omega arith

pub or_bit_if-Writes :
    (b : ℕ) (arr : List ℕ) (p : ℕ)
    → b < 2
    → p / 8 < length arr
    → bit_at arr p ≡ 0
    → (out : List ℕ) × (or_bit_if b arr p ≡ some out) × Writes arr p b out
unfolding or_bit_if
or_bit_if-Writes b arr p small inside clear = elim (bit_cases b small) [
  | inl e ↦ (
    arr,
    rw e,
    record { same_length = refl; here = rw e clear; there = λ q ne. refl; bytes = λ h. h },
  )
  | inr e ↦
      let s = or_bit-SetsBit arr p inside in
      (
        s.0,
        rw e (s.1),
        record {
          same_length = s.2.same_length;
          here = rw e (s.2.here);
          there = s.2.there;
          bytes = s.2.bytes;
        },
      )
]

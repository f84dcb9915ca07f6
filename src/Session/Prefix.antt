-- ===== src/Session/Prefix.antt =====
-- `hashPrefix56` is no lossy hash: on bytes it tells the first 7 bytes apart.
use quic_hop.Base.{
  ℕ, zero, suc, ◌+◌, ◌*◌, ◌<◌, ◌≤◌, ◌^◌, ◌≡◌, refl, sym, ◌∙◌, ◌≢◌, List, arith, length, get_or,
  Bool-cases, inl, inr, ◌==◌, take, bit_or, ◌<<<◌, length-take, get_or_ext, replicate,
  length-replicate, get_or-replicate, ◌↔◌,
}
use quic_hop.Base.Bits.Fields.{bit_or_shifted}
use quic_hop.Base.BitArray.{IsBytes, take-IsBytes}
use quic_hop.Algo.Codec.Laws.{copy_whole}
use quic_hop.Session.{clone_bytes, hash_prefix56, entry_hash}

pub clone_bytes_lem : (src : List ℕ) → clone_bytes src ≡ src
unfolding clone_bytes
clone_bytes_lem src =
    copy_whole (replicate (length src) 0) src (length-replicate {A = ℕ} (length src) 0)

abbrev digit_sum : List ℕ → ℕ
digit_sum b =
    get_or b 0 0
    + get_or b 1 0 * 2 ^ 8
    + get_or b 2 0 * 2 ^ 16
    + get_or b 3 0 * 2 ^ 24
    + get_or b 4 0 * 2 ^ 32
    + get_or b 5 0 * 2 ^ 40
    + get_or b 6 0 * 2 ^ 48

or_fields :
    (b0 b1 b2 b3 b4 b5 b6 : ℕ)
    → b0 < 256
    → b1 < 256
    → b2 < 256
    → b3 < 256
    → b4 < 256
    → b5 < 256
    → bit_or
        (bit_or
          (bit_or (bit_or (bit_or (bit_or b0 (b1 <<< 8)) (b2 <<< 16)) (b3 <<< 24)) (b4 <<< 32))
          (b5 <<< 40))
        (b6 <<< 48)
      ≡ b0 + b1 * 2 ^ 8 + b2 * 2 ^ 16 + b3 * 2 ^ 24 + b4 * 2 ^ 32 + b5 * 2 ^ 40 + b6 * 2 ^ 48
or_fields b0 b1 b2 b3 b4 b5 b6 h0 h1 h2 h3 h4 h5 =
    let e1 = bit_or_shifted 8 b0 b1 h0 in
    let e2 = bit_or_shifted 16 (b0 + b1 * 2 ^ 8) b2 (omega arith) in
    let e3 = bit_or_shifted 24 (b0 + b1 * 2 ^ 8 + b2 * 2 ^ 16) b3 (omega arith) in
    let e4 = bit_or_shifted 32 (b0 + b1 * 2 ^ 8 + b2 * 2 ^ 16 + b3 * 2 ^ 24) b4 (omega arith) in
    let e5 =
      bit_or_shifted 40 (b0 + b1 * 2 ^ 8 + b2 * 2 ^ 16 + b3 * 2 ^ 24 + b4 * 2 ^ 32) b5
        (omega arith) in
    let e6 =
      bit_or_shifted 48 (b0 + b1 * 2 ^ 8 + b2 * 2 ^ 16 + b3 * 2 ^ 24 + b4 * 2 ^ 32 + b5 * 2 ^ 40) b6
        (omega arith) in
    rw (e1, e2, e3, e4, e5) e6

hash_prefix56_sum : (b : List ℕ) → 7 ≤ length b → IsBytes b → hash_prefix56 b ≡ digit_sum b
unfolding hash_prefix56
hash_prefix56_sum b long bytes = ground (
  arith,
  or_fields (get_or b 0 0) (get_or b 1 0) (get_or b 2 0) (get_or b 3 0) (get_or b 4 0)
      (get_or b 5 0) (get_or b 6 0) (bytes 0) (bytes 1) (bytes 2) (bytes 3) (bytes 4) (bytes 5),
)

-- The number that `count` bytes from index `i` on spell, the first one lowest.
abbrev value : ℕ → ℕ → List ℕ → ℕ
value zero i b = 0
value (suc count) i b = get_or b i 0 + 256 * value count (i + 1) b

values_agree :
    (a b : List ℕ)
    → IsBytes a
    → IsBytes b
    → (count i j : ℕ) → i ≤ j
    → j < i + count
    → value count i a ≡ value count i b
    → get_or a j 0 ≡ get_or b j 0
values_agree a b ha hb zero i j low high e = absurd (omega (arith, low, high))
values_agree a b ha hb (suc count) i j low high e = elim (Bool-cases (j == i)) [
  | inl same ↦ let here : j ≡ i = ground (arith, same) in rw here (omega (arith, e, ha i, hb i))
  | inr other ↦
      let past : i + 1 ≤ j = ground (arith, low, other) in
      values_agree a b ha hb count (i + 1) j past (omega (arith, high))
        (omega (arith, e, ha i, hb i))
]

digits_agree :
    (a b : List ℕ)
    → IsBytes a
    → IsBytes b
    → digit_sum a ≡ digit_sum b
    → (i : ℕ) → i < 7
    → get_or a i 0 ≡ get_or b i 0
digits_agree a b ha hb e i h =
    values_agree a b ha hb 7 0 i (omega arith) (omega (arith, h)) (omega (arith, e))

-- On seven bytes the hash is injective.
pub hash_prefix56-injective :
    (a b : List ℕ)
    → length a ≡ 7
    → length b ≡ 7
    → IsBytes a
    → IsBytes b
    → hash_prefix56 a ≡ hash_prefix56 b
    → a ≡ b
hash_prefix56-injective a b la lb ha hb e = get_or_ext 0 a b (la ∙ sym lb) λ i h.
    digits_agree a b ha hb
      (sym (hash_prefix56_sum a (omega arith) ha) ∙ e ∙ hash_prefix56_sum b (omega arith) hb) i
      (omega arith)

hash_prefix56-replicate : hash_prefix56 (replicate 7 0) ≡ 0
unfolding hash_prefix56
hash_prefix56-replicate = refl

-- The hash is 0 for seven zero bytes alone.
pub hash_prefix56-eq-zero_iff :
    (a : List ℕ) → length a ≡ 7 → IsBytes a → (hash_prefix56 a ≡ 0) ↔ (a ≡ replicate 7 0)
hash_prefix56-eq-zero_iff a la ha = (
  λ e.
      hash_prefix56-injective a (replicate 7 0) la refl ha
        (λ i. omega (arith, get_or-replicate {A = ℕ} 7 0 i)) (e ∙ sym hash_prefix56-replicate),
  λ e. rw e hash_prefix56-replicate,
)

-- Entries of equal, non-zero hash have the same first 7 bytes.
pub entry_hash-long : (a : List ℕ) → entry_hash a ≢ 0 → 7 ≤ length a
unfolding entry_hash
entry_hash-long a h = ground arith

pub entry_hash_lem : (a : List ℕ) → 7 ≤ length a → entry_hash a ≡ hash_prefix56 (take 7 a)
unfolding entry_hash
entry_hash_lem a h = ground arith

pub entry_hash-injective :
    (a d : List ℕ)
    → IsBytes a
    → IsBytes d
    → 7 ≤ length a
    → 7 ≤ length d
    → entry_hash a ≡ hash_prefix56 (take 7 d)
    → take 7 a ≡ take 7 d
entry_hash-injective a d ha hd la ld e =
    hash_prefix56-injective (take 7 a) (take 7 d) (omega (arith, length-take 7 a))
      (omega (arith, length-take 7 d)) (take-IsBytes 7 a ha) (take-IsBytes 7 d hd)
      (sym (entry_hash_lem a la) ∙ e)

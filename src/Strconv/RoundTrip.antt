-- ===== src/Strconv/RoundTrip.antt =====
-- Numbers written and read back.
use quic_hop.Base.{
  ℕ, zero, suc, ◌+◌, ◌-◌, ◌*◌, ◌/◌, ◌%◌, ◌^◌, ◌<◌, ◌≡◌, refl, ap, ◌∙◌, List, [], ◌∷◌, Bool-cases,
  inl, inr, false, ◌||◌, u64, ltb, leb, arith,
}
use quic_hop.Strconv.{digits_before, decimal, parse_loop, parse_uint, max_uint64}

parse_loop-digit :
    (d n : ℕ) (later : List ℕ)
    → d < 10
    → n * 10 + d < 2 ^ 64
    → parse_loop ((48 + d) ∷ later) n ≡ parse_loop later (n * 10 + d)
unfolding parse_loop
parse_loop-digit d n later one small =
    let digit : (ltb (48 + d) 48 || ltb 57 (48 + d)) ≡ false = ground arith in
    let below : leb (max_uint64 / 10 + 1) n ≡ false = ground arith in
    let value : u64 (n * 10 + (48 + d - 48)) ≡ n * 10 + d = omega (arith, small) in
    let kept : ltb (n * 10 + d) (n * 10) ≡ false = ground arith in
    rw (digit, below, value, kept) refl

parse_loop-digits_before :
    (fuel n : ℕ) (later : List ℕ)
    → n < 10 ^ fuel
    → n < 2 ^ 64
    → parse_loop (digits_before fuel n later) 0 ≡ parse_loop later n
unfolding digits_before
parse_loop-digits_before zero n later h small = ap (parse_loop later) (omega (arith, h))
parse_loop-digits_before (suc fuel) n later h small = elim (Bool-cases (ltb n 10)) [
  | inl one ↦ rw one (
      parse_loop-digit n 0 later (ground (arith, one)) (omega (arith, small))
      ∙ ap (parse_loop later) (omega arith))
  | inr several ↦ rw several (
      parse_loop-digits_before fuel (n / 10) ((48 + n % 10) ∷ later) (omega (arith, h))
        (omega (arith, small))
      ∙ parse_loop-digit (n % 10) (n / 10) later (omega arith) (omega (arith, small))
      ∙ ap (parse_loop later) (omega arith))
]

pub parse_uint-decimal : (n : ℕ) → n < 2 ^ 64 → parse_uint (decimal n) ≡ n
unfolding parse_uint decimal parse_loop
parse_uint-decimal n small = parse_loop-digits_before 20 n [] (omega (arith, small)) small

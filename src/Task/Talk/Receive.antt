-- ===== src/Task/Talk/Receive.antt =====
-- The loop that receives the content, whatever portions it comes in and however the stream ends.
use quic_hop.Base.{
  ℕ, zero, suc, ◌+◌, ◌^◌, ◌≤◌, ◌<◌, ◌≡◌, refl, ap, ◌∙◌, List, [], ◌∷◌, arith, Bool, true, false,
  length, take, drop, u64, ◌==◌, length-take, length-drop, ltb, Bool-cases, inl, inr, ◌⊎◌,
}
use native.Mathlib.Nat.{add-zero}
use quic_hop.Task.{Proc, Reason, ◌>>=◌, receive_data, chunk_size}
use quic_hop.Task.Talk.{open_end, sound_end}
use quic_hop.Task.Run.{
  an_end, Halt, End, Ending, more, end_of_file, broken, run, waiting, aborted, portion, rest_of,
}

portion-pos : (cuts : List ℕ) → 0 < portion chunk_size cuts
unfolding portion
portion-pos [] = omega arith
portion-pos (c ∷ cuts) = omega arith

pub read_something :
    (cuts : List ℕ) (b : ℕ) (bs : List ℕ) → 0 < length (take (portion chunk_size cuts) (b ∷ bs))
read_something cuts b bs =
    omega (arith, length-take (portion chunk_size cuts) (b ∷ bs), portion-pos cuts)

-- What was read and what was not make up the bytes there were.
pub split_length : (n : ℕ) (bs : List ℕ) → length (take n bs) + length (drop n bs) ≡ length bs
split_length n bs = omega (arith, length-take n bs, length-drop n bs)

module _ {A : Type 0} (why : Reason) where
  pub run-receive_data_waits :
      (n : ℕ) (k : ℕ → Proc A) (cuts out : List ℕ)
      → 0 < n
      → run (receive_data n n why 0 >>= k) (open_end [] cuts out)
        ≡ (waiting (receive_data n n why 0 >>= k), open_end [] cuts out)
  unfolding receive_data run
  run-receive_data_waits zero k cuts out h = absurd (omega arith)
  run-receive_data_waits (suc n) k cuts out h =
      let more_wanted : ltb 0 (suc n) ≡ true = ground arith in rw more_wanted refl

  -- One `Read` that finds bytes.
  pub run-receive_data_step :
      (ending : Ending) (fuel expected received : ℕ) (k : ℕ → Proc A) (b : ℕ) (bs cuts : List ℕ)
      (faults : List Bool) (out : List ℕ)
      → received < expected
      → received + length (take (portion chunk_size cuts) (b ∷ bs)) < 2 ^ 64
      → run
          (receive_data (suc fuel) expected why received >>= k)
          (an_end (b ∷ bs) ending cuts faults out)
        ≡ run
            (receive_data fuel expected why
                (received + length (take (portion chunk_size cuts) (b ∷ bs)))
              >>= k)
            (an_end (drop (portion chunk_size cuts) (b ∷ bs)) ending (rest_of cuts) faults out)
  unfolding receive_data run
  run-receive_data_step ending fuel expected received k b bs cuts faults out wanted small =
      let m = portion chunk_size cuts in
      let more_wanted : ltb received expected ≡ true = ground arith in
      let some_read : 0 < length (take m (b ∷ bs)) = read_something cuts b bs in
      let not_over : (length (take m (b ∷ bs)) == 0) ≡ false = ground arith in
      let counted : u64 (received + length (take m (b ∷ bs)))
          ≡ received + length (take m (b ∷ bs)) =
        omega (arith, small) in
      rw more_wanted (rw (run, not_over) (rw counted refl))

  -- Nothing is left to read, or the stream is over.
  run-receive_data_end :
      (ending : Ending) (fuel expected received : ℕ) (k : ℕ → Proc A) (cuts out : List ℕ)
      → expected ≤ received + fuel
      → (expected ≤ received) ⊎ (ending ≡ end_of_file)
      → run (receive_data fuel expected why received >>= k) (sound_end ending [] cuts out)
        ≡ run (k received) (sound_end ending [] cuts out)
  unfolding receive_data run
  run-receive_data_end ending zero expected received k cuts out enough over =
      let all : ltb received expected ≡ false = ground (arith, enough) in rw all refl
  run-receive_data_end more (suc fuel) expected received k cuts out enough over =
      elim (Bool-cases (ltb received expected)) [
        | inr done ↦ rw done refl
        | inl wanted ↦ elim over [ inl all ↦ absurd (ground arith) | inr closed ↦ absurd (cc) ]
      ]
  run-receive_data_end end_of_file (suc fuel) expected received k cuts out enough over =
      elim (Bool-cases (ltb received expected)) [
        | inr done ↦ rw done refl
        | inl wanted ↦ rw wanted refl
      ]
  run-receive_data_end broken (suc fuel) expected received k cuts out enough over =
      elim (Bool-cases (ltb received expected)) [
        | inr done ↦ rw done refl
        | inl wanted ↦ elim over [ inl all ↦ absurd (ground arith) | inr closed ↦ absurd (cc) ]
      ]

  fails_at_once :
      (fuel expected received : ℕ) (k : ℕ → Proc A) (cuts out : List ℕ)
      → expected ≤ received + fuel
      → received < expected
      → run (receive_data fuel expected why received >>= k) (sound_end broken [] cuts out)
        ≡ (aborted why, sound_end broken [] cuts out)
  unfolding receive_data run
  fails_at_once zero expected received k cuts out enough short =
      absurd (omega (arith, enough, short))
  fails_at_once (suc fuel) expected received k cuts out enough short =
      let wanted : ltb received expected ≡ true = ground (arith, short) in rw wanted refl

  -- The bytes that have arrived, no more than are still expected, are all read, in whatever portions;
  -- rounds are left for what is missing.
  record AllRead (ending : Ending) (expected received : ℕ) (k : ℕ → Proc A) (cuts out : List ℕ)
      (before : Halt A × End) : Type 0 where
    pub left : ℕ
    pub cuts' : List ℕ
    pub enough : expected ≤ received + left
    pub same :
        before ≡ run (receive_data left expected why received >>= k) (sound_end ending [] cuts' out)

  receive_data-AllRead :
      (ending : Ending) (fuel expected received : ℕ) (k : ℕ → Proc A) (inbox cuts out : List ℕ)
      → expected < 2 ^ 64
      → expected ≤ received + fuel
      → received + length inbox ≤ expected
      → AllRead ending expected
          (received + length inbox)
          k
          cuts
          out
          (run (receive_data fuel expected why received >>= k) (sound_end ending inbox cuts out))
  receive_data-AllRead ending fuel expected received k [] cuts out small enough fits = record {
    left = fuel;
    cuts' = cuts;
    enough = omega (arith, enough);
    same = rw (add-zero received) refl;
  }
  receive_data-AllRead ending zero expected received k (b ∷ bs) cuts out small enough fits =
      absurd (omega (arith, fits, enough))
  receive_data-AllRead ending (suc fuel) expected received k (b ∷ bs) cuts out small enough fits =
      let m = portion chunk_size cuts in
      let split = split_length m (b ∷ bs) in
      let some_read = read_something cuts b bs in
      let total : received + length (take m (b ∷ bs)) + length (drop m (b ∷ bs))
          ≡ received + length (b ∷ bs) =
        omega (arith, split) in
      let later =
        receive_data-AllRead ending fuel expected (received + length (take m (b ∷ bs))) k
          (drop m (b ∷ bs)) (rest_of cuts) out small (omega (arith, some_read, enough))
          (omega (arith, total, fits)) in
      record {
        left = later.left;
        cuts' = later.cuts';
        enough = omega (arith, later.enough, total);
        same =
            run-receive_data_step ending fuel expected received k b bs cuts [] out
              (omega (arith, fits)) (omega (arith, split, fits, small))
            ∙ later.same
            ∙ ap
                (λ (v : ℕ).
                  run (receive_data later.left expected why v >>= k)
                    (sound_end ending [] later.cuts' out))
                total;
      }

  -- Either all of the bytes expected have arrived or the stream is over behind those that have.
  pub run-receive_data :
      (ending : Ending) (fuel expected received : ℕ) (k : ℕ → Proc A) (inbox cuts out : List ℕ)
      → expected < 2 ^ 64
      → expected ≤ received + fuel
      → received + length inbox ≤ expected
      → (expected ≤ received + length inbox) ⊎ (ending ≡ end_of_file)
      → (cuts' : List ℕ) × (run
            (receive_data fuel expected why received >>= k)
            (sound_end ending inbox cuts out)
          ≡ run (k (received + length inbox)) (sound_end ending [] cuts' out))
  run-receive_data ending fuel expected received k inbox cuts out small enough fits over =
      let all =
        receive_data-AllRead ending fuel expected received k inbox cuts out small enough fits in
      (
        all.cuts',
        all.same
            ∙ run-receive_data_end ending all.left expected (received + length inbox) k all.cuts'
                out all.enough over,
      )

  -- The stream fails behind fewer bytes than expected.
  pub run-receive_data_broken :
      (expected : ℕ) (k : ℕ → Proc A) (inbox cuts out : List ℕ)
      → expected < 2 ^ 64
      → length inbox < expected
      → (cuts' : List ℕ) × (run
            (receive_data expected expected why 0 >>= k)
            (sound_end broken inbox cuts out)
          ≡ (aborted why, sound_end broken [] cuts' out))
  run-receive_data_broken expected k inbox cuts out small short =
      let all =
        receive_data-AllRead broken expected expected 0 k inbox cuts out small (omega arith)
          (omega (arith, short)) in
      (
        all.cuts',
        all.same
            ∙ fails_at_once all.left expected (0 + length inbox) k all.cuts' out all.enough
                (omega (arith, short)),
      )

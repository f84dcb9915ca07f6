-- ===== src/Task/Halting.antt =====
-- When a run on one end of a stream waits and when it crashes, and that the loop that receives the
-- content ends.
use mathlib.Core.Path.{fun_ext}
use quic_hop.Base.{
  ap, ◌⊎◌, ℕ, zero, suc, ◌+◌, ◌^◌, ◌≤◌, ◌<◌, ◌≡◌, refl, List, [], ◌∷◌, arith, true, false, length,
  take, drop, leb, ltb, Bool, Bool-cases, inl, inr, ◌++◌,
}
use quic_hop.Task.{
  Proc, Reason, ◌>>=◌, read, read_full, write, abort, crash, endless, finish, receive_data,
  chunk_size,
}
use quic_hop.Task.Talk.Receive.{run-receive_data_step, read_something, split_length}
use quic_hop.Task.Run.{
  an_end, Halt, End, Ending, more, end_of_file, broken, run, waiting, finished, aborted, crashed,
  unending, portion, rest_of, fails,
}

-- A task that crashes only under the condition C.
unfoldable pub CrashesOnlyIf : (C : Type 0) → {A : Type 0} → Proc A → Type 0
CrashesOnlyIf C (finish a) = Unit
CrashesOnlyIf C (abort why) = Unit
CrashesOnlyIf C crash = C
CrashesOnlyIf C endless = Unit
CrashesOnlyIf C (write bs why p) = CrashesOnlyIf C p
CrashesOnlyIf C (read_full n why k) = (bs : List ℕ) → CrashesOnlyIf C (k bs)
CrashesOnlyIf C (read n why k) = (bs : List ℕ) → CrashesOnlyIf C (k bs)

-- A run that crashed only under C, and that waits only on a stream that is still open.
unfoldable pub EndsWell : (C : Type 0) → Ending → {A : Type 0} → Halt A → Type 0
EndsWell C ending (finished a) = Unit
EndsWell C ending (aborted why) = Unit
EndsWell C ending crashed = C
EndsWell C ending unending = Unit
EndsWell C ending (waiting p) = ending ≡ more

module _ (C : Type 0) {A : Type 0} where
  read_full-EndsWell :
      (n : ℕ) (why : Reason) (k : List ℕ → Proc A) (inbox : List ℕ) (ending : Ending)
      (cuts : List ℕ) (faults : List Bool) (outbox : List ℕ)
      → EndsWell C ending
          ((run (k (take n inbox)) (an_end (drop n inbox) ending cuts faults outbox)).0)
      → EndsWell C ending ((run (read_full n why k) (an_end inbox ending cuts faults outbox)).0)
  unfolding EndsWell run
  read_full-EndsWell n why k inbox more cuts faults outbox later =
      elim (Bool-cases (leb n (length inbox))) [
        | inl there ↦ rw (run, there) later
        | inr short ↦ rw (run, short) refl
      ]
  read_full-EndsWell n why k inbox end_of_file cuts faults outbox later =
      elim (Bool-cases (leb n (length inbox))) [
        | inl there ↦ rw (run, there) later
        | inr short ↦ rw (run, short) tt
      ]
  read_full-EndsWell n why k inbox broken cuts faults outbox later =
      elim (Bool-cases (leb n (length inbox))) [
        | inl there ↦ rw (run, there) later
        | inr short ↦ rw (run, short) tt
      ]

  pub run-EndsWell :
      (p : Proc A) (inbox : List ℕ) (ending : Ending) (cuts : List ℕ) (faults : List Bool)
      (outbox : List ℕ)
      → CrashesOnlyIf C p
      → EndsWell C ending ((run p (an_end inbox ending cuts faults outbox)).0)
  unfolding CrashesOnlyIf EndsWell run fails rest_of
  run-EndsWell (finish a) inbox ending cuts faults outbox sound = tt
  run-EndsWell (abort why) inbox ending cuts faults outbox sound = tt
  run-EndsWell crash inbox ending cuts faults outbox sound = sound
  run-EndsWell endless inbox ending cuts faults outbox sound = tt
  run-EndsWell (write bs why p) inbox ending cuts faults outbox sound =
      elim (Bool-cases (fails faults)) [
        | inl failed ↦ rw (run, failed) tt
        | inr passed ↦
            rw (run, passed)
              (run-EndsWell p inbox ending cuts (rest_of faults) (outbox ++ bs) sound)
      ]
  run-EndsWell (read_full n why k) inbox ending cuts faults outbox sound =
      read_full-EndsWell n why k inbox ending cuts faults outbox (
        run-EndsWell (k (take n inbox)) (drop n inbox) ending cuts faults outbox
          (sound (take n inbox)))
  run-EndsWell (read n why k) [] more cuts faults outbox sound = refl
  run-EndsWell (read n why k) [] end_of_file cuts faults outbox sound =
      run-EndsWell (k []) [] end_of_file cuts faults outbox (sound [])
  run-EndsWell (read n why k) [] broken cuts faults outbox sound = tt
  run-EndsWell (read n why k) (b ∷ bs) ending cuts faults outbox sound =
      run-EndsWell (k (take (portion n cuts) (b ∷ bs))) (drop (portion n cuts) (b ∷ bs)) ending
        (rest_of cuts) faults outbox (sound (take (portion n cuts) (b ∷ bs)))

finish_last : {A : Type 0} (p : Proc A) → (p >>= finish) ≡ p
finish_last (finish a) = refl
finish_last (abort why) = refl
finish_last crash = refl
finish_last endless = refl
finish_last (write bs why p) = ap (write bs why) (finish_last p)
finish_last (read_full n why k) = ap (read_full n why) (fun_ext λ bs. finish_last (k bs))
finish_last (read n why k) = ap (read n why) (fun_ext λ bs. finish_last (k bs))

-- How the loop may end, where `total` bytes are already counted or have arrived, with what is left
-- of these: with its count, at which it wanted no more or the stream was over; with the error of a
-- stream that failed behind too few bytes; or at a call of `Read` that waits, behind too few bytes
-- of a stream that is open.
unfoldable pub EndsReceiving : Ending → ℕ → ℕ → List ℕ → Halt ℕ → Type 0
EndsReceiving ending expected total left (finished n) =
    (n + length left ≡ total)
    × ((expected ≤ n) ⊎ ((left ≡ []) × (ending ≡ end_of_file) × (total < expected)))
EndsReceiving ending expected total left (aborted why) =
    (left ≡ []) × (ending ≡ broken) × (total < expected)
EndsReceiving ending expected total left (waiting p) =
    (left ≡ []) × (ending ≡ more) × (total < expected)
EndsReceiving ending expected total left crashed = ⊥
EndsReceiving ending expected total left unending = ⊥

module _ (why : Reason) where
  abbrev loop : ℕ → ℕ → ℕ → End → Halt ℕ × End
  loop fuel expected received e = run (receive_data fuel expected why received >>= finish) e

  enough_EndsReceiving :
      (fuel expected received : ℕ) (inbox : List ℕ) (ending : Ending) (cuts : List ℕ)
      (faults : List Bool) (outbox : List ℕ)
      → ltb received expected ≡ false
      → EndsReceiving ending expected
          (received + length inbox)
          ((loop fuel expected received (an_end inbox ending cuts faults outbox)).1.inbox)
          ((loop fuel expected received (an_end inbox ending cuts faults outbox)).0)
  unfolding receive_data run EndsReceiving
  enough_EndsReceiving zero expected received inbox ending cuts faults outbox all =
      rw all (refl, inl (ground (arith, all)))
  enough_EndsReceiving (suc fuel) expected received inbox ending cuts faults outbox all =
      rw all (refl, inl (ground (arith, all)))

  empty_EndsReceiving :
      (fuel expected received : ℕ) (ending : Ending) (cuts : List ℕ) (faults : List Bool)
      (outbox : List ℕ)
      → ltb received expected ≡ true
      → EndsReceiving ending expected
          (received + 0)
          ((loop (suc fuel) expected received (an_end [] ending cuts faults outbox)).1.inbox)
          ((loop (suc fuel) expected received (an_end [] ending cuts faults outbox)).0)
  unfolding receive_data run EndsReceiving
  empty_EndsReceiving fuel expected received more cuts faults outbox wanted =
      rw wanted (refl, refl, ground (arith, wanted))
  empty_EndsReceiving fuel expected received end_of_file cuts faults outbox wanted =
      rw wanted (refl, inr (refl, refl, ground (arith, wanted)))
  empty_EndsReceiving fuel expected received broken cuts faults outbox wanted =
      rw wanted (refl, refl, ground (arith, wanted))

  -- A round, if what follows it ends.
  one_more :
      (fuel expected received : ℕ) (inbox : List ℕ) (ending : Ending) (cuts : List ℕ)
      (faults : List Bool) (outbox : List ℕ)
      → expected ≤ received + suc fuel
      → received + length inbox < 2 ^ 64
      → ltb received expected ≡ true
      → ((received' : ℕ) (inbox' cuts' : List ℕ)
          → expected ≤ received' + fuel
          → received' + length inbox' < 2 ^ 64
          → EndsReceiving ending expected
              (received' + length inbox')
              ((loop fuel expected received' (an_end inbox' ending cuts' faults outbox)).1.inbox)
              ((loop fuel expected received' (an_end inbox' ending cuts' faults outbox)).0))
      → EndsReceiving ending expected
          (received + length inbox)
          ((loop (suc fuel) expected received (an_end inbox ending cuts faults outbox)).1.inbox)
          ((loop (suc fuel) expected received (an_end inbox ending cuts faults outbox)).0)
  one_more fuel expected received [] ending cuts faults outbox enough small wanted later =
      empty_EndsReceiving fuel expected received ending cuts faults outbox wanted
  one_more fuel expected received (b ∷ bs) ending cuts faults outbox enough small wanted later =
      let m = portion chunk_size cuts in
      let split = split_length m (b ∷ bs) in
      let some_read = read_something cuts b bs in
      let total : received + length (take m (b ∷ bs)) + length (drop m (b ∷ bs))
          ≡ received + length (b ∷ bs) =
        omega (arith, split) in
      let step =
        run-receive_data_step why ending fuel expected received finish b bs cuts faults outbox
          (ground (arith, wanted)) (omega (arith, split, small)) in
      rw step (
        rw total at (
          later (received + length (take m (b ∷ bs))) (drop m (b ∷ bs)) (rest_of cuts)
            (omega (arith, some_read, enough)) (omega (arith, total, small))))

  loop-EndsReceiving :
      (fuel expected received : ℕ) (inbox : List ℕ) (ending : Ending) (cuts : List ℕ)
      (faults : List Bool) (outbox : List ℕ)
      → expected ≤ received + fuel
      → received + length inbox < 2 ^ 64
      → EndsReceiving ending expected
          (received + length inbox)
          ((loop fuel expected received (an_end inbox ending cuts faults outbox)).1.inbox)
          ((loop fuel expected received (an_end inbox ending cuts faults outbox)).0)
  loop-EndsReceiving zero expected received inbox ending cuts faults outbox enough small =
      enough_EndsReceiving zero expected received inbox ending cuts faults outbox
        (ground (arith, enough))
  loop-EndsReceiving (suc fuel) expected received inbox ending cuts faults outbox enough small =
      elim (Bool-cases (ltb received expected)) [
        | inr all ↦
            enough_EndsReceiving (suc fuel) expected received inbox ending cuts faults outbox all
        | inl wanted ↦
            one_more fuel expected received inbox ending cuts faults outbox enough small wanted
              (λ received' inbox' cuts' enough' small'.
                loop-EndsReceiving fuel expected received' inbox' ending cuts' faults outbox enough'
                  small')
      ]

  -- The loop that receives the content, with as many rounds as bytes are still expected or more, on a
  -- stream whose bytes come in any portions and that stays open, ends or fails behind fewer than 2^64 of
  -- them: it never goes on beyond these rounds. It returns, with the bytes it was given counted exactly,
  -- once it has what it expects or the stream is over; it fails only on a stream that failed behind
  -- fewer bytes; and it waits only on an open one that has given all of fewer bytes.
  pub receive_data_ends :
      (fuel expected received : ℕ) (e : End)
      → expected ≤ received + fuel
      → received + length e.inbox < 2 ^ 64
      → EndsReceiving e.ending expected
          (received + length e.inbox)
          ((run (receive_data fuel expected why received) e).1.inbox)
          ((run (receive_data fuel expected why received) e).0)
  receive_data_ends fuel expected received e enough small =
      rw (← finish_last (receive_data fuel expected why received)) (
        loop-EndsReceiving fuel expected received e.inbox e.ending e.cuts e.faults e.outbox enough
          small)

-- ===== src/Client/Automaton.antt =====
-- The client's loops as lists of calls, and as an automaton in Auto: the two go through the same
-- attempts to the same results.
use mathlib.Core.List.{append-nil, append_assoc}
use quic_hop.Base.{
  ℕ, zero, suc, ◌+◌, ◌≡◌, refl, sym, ap, ap₂, ◌∙◌, List, [], ◌∷◌, ◌++◌, Option, none, some, arith,
  length, ltb, true, false, if◌then◌else◌,
}
use quic_hop.Base.Ledger.{Run}
use quic_hop.Config.{task_rounds}
use quic_hop.Auto.{Stage, uploading, downloading, ClientState, Trying, summary, try_task}
use quic_hop.Client.{
  Call, Attempt, no_socket, no_session, no_stream, task_failed, measured, Feed, and_then,
  with_calibration, attempt_loop, measure_task, perform_transfer_tasks, run_client_once,
  run_auto_slots,
}

and_then-some :
    {A B : Type 0} (run : Run Call A) (k : A → Run Call B) (b : B)
    → (and_then run k).1 ≡ some b
    → (a : A) × (run.1 ≡ some a) × ((k a).1 ≡ some b)
and_then-some (calls, none) k b e = absurd (cc)
and_then-some (calls, some a) k b e = (a, refl, e)

with_calibration-some :
    {B : Type 0} (latencies : List ℕ) (k : ℕ → List ℕ → Run Call B) (b : B)
    → (with_calibration latencies k).1 ≡ some b
    → (latency : ℕ) × (later : List ℕ) × ((k latency later).1 ≡ some b)
with_calibration-some [] k b e = absurd (cc)
with_calibration-some (latency ∷ later) k b e = (latency, later, e)

module _ {Float : Type 0} where
  abbrev pub trying_of : Attempt Float → Trying Float
  trying_of no_socket = Trying.dial_failed
  trying_of no_session = Trying.dial_failed
  trying_of no_stream = Trying.task_failed
  trying_of task_failed = Trying.task_failed
  trying_of (measured mbps) = Trying.measured mbps

  -- The automaton over attempts.
  abbrev pub try_all : List (Attempt Float) → ClientState Float → ClientState Float
  try_all [] c = c
  try_all (a ∷ attempts) c = try_all attempts (try_task (trying_of a) c)

  -- A loop that ends: its failed attempts changed nothing.
  attempt_loop-try_all :
      (stage : Stage) (latency : ℕ) (later : List ℕ) (attempts : List (Attempt Float))
      (mbps : Float) (feed : Feed Float) (c : ClientState Float)
      → (attempt_loop stage latency later attempts).1 ≡ some (mbps, feed)
      → try_all attempts c ≡ try_all feed.attempts (try_task (Trying.measured mbps) c)
  unfolding attempt_loop try_task
  attempt_loop-try_all stage latency later [] mbps feed c e = absurd (cc)
  attempt_loop-try_all stage latency later (no_socket ∷ attempts) mbps feed c e =
      attempt_loop-try_all stage latency later attempts mbps feed c e
  attempt_loop-try_all stage latency later (no_session ∷ attempts) mbps feed c e =
      attempt_loop-try_all stage latency later attempts mbps feed c e
  attempt_loop-try_all stage latency later (no_stream ∷ attempts) mbps feed c e =
      attempt_loop-try_all stage latency later attempts mbps feed c e
  attempt_loop-try_all stage latency later (task_failed ∷ attempts) mbps feed c e =
      attempt_loop-try_all stage latency later attempts mbps feed c e
  attempt_loop-try_all stage latency later (measured found ∷ attempts) mbps feed c e =
      let one : found ≡ mbps = cc (e) in
      let rest : attempts ≡ feed.attempts =
        ap (λ (o : Option (Float × Feed Float)). elim o [ some p ↦ p.1.attempts | none ↦ attempts ])
          e in
      ap₂
        (λ (n : Float) (as_left : List (Attempt Float)).
          try_all as_left (try_task (Trying.measured n) c))
        one rest

  measure_task-try_all :
      (stage : Stage) (feed later : Feed Float) (mbps : Float) (c : ClientState Float)
      → (measure_task stage feed).1 ≡ some (mbps, later)
      → try_all feed.attempts c ≡ try_all later.attempts (try_task (Trying.measured mbps) c)
  unfolding measure_task
  measure_task-try_all stage feed later mbps c e =
      let w = with_calibration-some feed.latencies _ (mbps, later) e in
      attempt_loop-try_all stage w.0 w.1 feed.attempts mbps later c w.2

  module _ (ms : ℕ) (slots : List ℕ) (summaries : List (Option (List (Float × Float)))) where
    abbrev in_round : ℕ → List Float → List Float → ClientState Float
    in_round round uploads downloads = record {
      slots = ms ∷ slots;
      round = round;
      stage = uploading;
      upload_results = uploads;
      download_results = downloads;
      summaries = summaries;
    }

    abbrev next_slot : List Float → List Float → ClientState Float
    next_slot uploads downloads = record {
      slots = slots;
      round = 1;
      stage = uploading;
      upload_results = [];
      download_results = [];
      summaries = summaries ++ summary task_rounds 0 uploads downloads ∷ [];
    }

    one_round :
        (round : ℕ) (uploads downloads : List Float) (u d : Float)
        → try_task
            (Trying.measured d)
            (try_task (Trying.measured u) (in_round round uploads downloads))
          ≡ (if ltb round task_rounds
              then in_round (round + 1) (uploads ++ u ∷ []) (downloads ++ d ∷ [])
              else next_slot (uploads ++ u ∷ []) (downloads ++ d ∷ []))
    unfolding try_task
    one_round round uploads downloads u d = ground arith

    finished :
        (uploads downloads us ds : List Float) (feed later : Feed Float)
        → ◌≡◌ {A = Option ((List Float × List Float) × Feed Float)}
            (some ((uploads, downloads), feed))
            (some ((us, ds), later))
        → try_all feed.attempts (next_slot uploads downloads)
          ≡ try_all later.attempts (next_slot us ds)
    finished uploads downloads us ds feed later e =
        ap
          (λ (o : Option ((List Float × List Float) × Feed Float)). elim o [
            | some p ↦ try_all p.1.attempts (next_slot p.0.0 p.0.1)
            | none ↦ next_slot uploads downloads
          ])
          e

    -- The rounds that are left, the last of them with the number of them all.
    rounds-try_all :
        (left round : ℕ) (feed later : Feed Float) (uploads downloads us ds : List Float)
        → round + left ≡ task_rounds
        → (perform_transfer_tasks (suc left) feed uploads downloads).1 ≡ some ((us, ds), later)
        → try_all feed.attempts (in_round round uploads downloads)
          ≡ try_all later.attempts (next_slot us ds)
    unfolding perform_transfer_tasks
    rounds-try_all zero round feed later uploads downloads us ds last e =
        let u = and_then-some (measure_task uploading feed) _ ((us, ds), later) e in
        let d = and_then-some (measure_task downloading u.0.1) _ ((us, ds), later) u.2 in
        let ends : ltb round task_rounds ≡ false = ground (arith, last) in
        measure_task-try_all uploading feed u.0.1 u.0.0 (in_round round uploads downloads) u.1
        ∙ measure_task-try_all downloading u.0.1 d.0.1 d.0.0 _ d.1
        ∙ ap (try_all d.0.1.attempts) (one_round round uploads downloads u.0.0 d.0.0 ∙ rw ends refl)
        ∙ finished (uploads ++ u.0.0 ∷ []) (downloads ++ d.0.0 ∷ []) us ds d.0.1 later d.2
    rounds-try_all (suc left) round feed later uploads downloads us ds more e =
        let u = and_then-some (measure_task uploading feed) _ ((us, ds), later) e in
        let d = and_then-some (measure_task downloading u.0.1) _ ((us, ds), later) u.2 in
        let goes_on : ltb round task_rounds ≡ true = ground (arith, more) in
        measure_task-try_all uploading feed u.0.1 u.0.0 (in_round round uploads downloads) u.1
        ∙ measure_task-try_all downloading u.0.1 d.0.1 d.0.0 _ d.1
        ∙ ap (try_all d.0.1.attempts)
            (one_round round uploads downloads u.0.0 d.0.0 ∙ rw goes_on refl)
        ∙ rounds-try_all left (round + 1) d.0.1 later (uploads ++ u.0.0 ∷ [])
            (downloads ++ d.0.0 ∷ []) us ds (omega (arith, more)) d.2

  run_client_once-try_all :
      (ms : ℕ) (slots : List ℕ) (summaries : List (Option (List (Float × Float))))
      (feed later : Feed Float) (us ds : List Float)
      → (run_client_once ms feed).1 ≡ some ((us, ds), later)
      → try_all feed.attempts (in_round ms slots summaries 1 [] [])
        ≡ try_all later.attempts (next_slot ms slots summaries us ds)
  unfolding run_client_once
  run_client_once-try_all ms slots summaries feed later us ds e =
      let w = with_calibration-some feed.latencies _ ((us, ds), later) e in
      rounds-try_all ms slots summaries 9 1 (record feed { latencies = w.1 }) later [] [] us ds refl
        w.2

  abbrev pub at_start : List ℕ → List (Option (List (Float × Float))) → ClientState Float
  at_start slots summaries = record {
    slots = slots;
    round = 1;
    stage = uploading;
    upload_results = [];
    download_results = [];
    summaries = summaries;
  }

  stays_at_end :
      (attempts : List (Attempt Float)) (summaries : List (Option (List (Float × Float))))
      → try_all attempts (at_start [] summaries) ≡ at_start [] summaries
  unfolding try_task
  stays_at_end [] summaries = refl
  stays_at_end (no_socket ∷ attempts) summaries = stays_at_end attempts summaries
  stays_at_end (no_session ∷ attempts) summaries = stays_at_end attempts summaries
  stays_at_end (no_stream ∷ attempts) summaries = stays_at_end attempts summaries
  stays_at_end (task_failed ∷ attempts) summaries = stays_at_end attempts summaries
  stays_at_end (measured mbps ∷ attempts) summaries = stays_at_end attempts summaries

  -- When the client with `-auto` comes to the end of these slots, so does the automaton of its loops
  -- over the same attempts, with one summary more for each slot.
  pub run_auto_slots-try_all :
      (slots : List ℕ) (feed later : Feed Float) (summaries : List (Option (List (Float × Float))))
      → (run_auto_slots slots feed).1 ≡ some later
      → (more : List (Option (List (Float × Float)))) × (try_all feed.attempts
            (at_start slots summaries)
          ≡ at_start [] (summaries ++ more))
        × (length more ≡ length slots)
  unfolding run_auto_slots
  run_auto_slots-try_all [] feed later summaries e = (
    [],
    stays_at_end feed.attempts summaries ∙ ap (at_start []) (sym (append-nil summaries)),
    refl,
  )
  run_auto_slots-try_all (ms ∷ slots) feed later summaries e =
      let d = and_then-some (run_client_once ms feed) _ later e in
      let s = summary task_rounds 0 d.0.0.0 d.0.0.1 in
      let rest = run_auto_slots-try_all slots d.0.1 later (summaries ++ s ∷ []) d.2 in
      (
        s ∷ rest.0,
        run_client_once-try_all ms slots summaries feed d.0.1 d.0.0.0 d.0.0.1 d.1
            ∙ rest.1
            ∙ ap (at_start []) (append_assoc summaries (s ∷ []) rest.0),
        ap suc rest.2,
      )

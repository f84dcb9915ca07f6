-- ===== src/Tests/Auto.antt =====
-- A slot with an error in it, the report, and the process monitor.
use quic_hop.Base.{
  ℕ, ◌≡◌, refl, List, [], ◌∷◌, ◌++◌, arith, Bool, true, false, not, ◌&&◌, ◌==◌, none, length, map,
  ltb,
}
use quic_hop.Config.{codes}
use quic_hop.Auto.{ClientState, auto_slots, next_slots, downloading}
use quic_hop.Auto.InStep.{
  Attempt, not_reached, failed, unheard, completed, attempts, Undisturbed, AreInStep, start,
  tasks_done, server, client, programs_stay_in_step,
}
use quic_hop.Auto.Drift.{programs_drift}
use quic_hop.Auto.Summaries.{AreComplete, summaries-AreComplete}
use quic_hop.Clock.{put_uint64}
use quic_hop.Calibration.{get_uint64}
use quic_hop.Task.{receive_data}
use quic_hop.Task.Server.{handle_single_task, dispatch, run_upload_task, report_upload}
use quic_hop.Task.Run.{an_end, more, run, fails, rest_of, portion}
use quic_hop.Serving.{Connection}
use quic_hop.Serving.Results.{entries_from}
use quic_hop.Strconv.{is_space}
use quic_hop.Cpumon.{ProcessMonitor, average_between}
use quic_hop.Cpumon.Mean.{average_between-window, mean, window, cpus, mems}
use quic_hop.Tests.Task.{whole_numbers, a_reading}

abbrev one_round : List (Attempt ℕ)
one_round = completed 40 ∷ not_reached ∷ completed 50 ∷ []

programs_stay_in_step_example :
    AreInStep
      ((attempts one_round (start auto_slots)).0)
      ((attempts one_round (start auto_slots)).1)
programs_stay_in_step_example =
    programs_stay_in_step one_round auto_slots (unfold Undisturbed in tt)

-- In the first round, with its upload done.
abbrev half_round : ClientState ℕ
half_round = client auto_slots 1 downloading (40 ∷ []) [] []

half_round-AreInStep : AreInStep (server auto_slots 1) half_round
half_round-AreInStep = record {
  sound = record {
    round_pos = omega arith;
    round_bound = omega arith;
    uploads = refl;
    downloads = refl;
  };
  same_slots = refl;
  same_tasks = refl;
}

abbrev later_slots : List ℕ
later_slots = next_slots auto_slots

-- Eighteen of them.
abbrev eighteen : ℕ → List ℕ
eighteen v = v ∷ v ∷ v ∷ v ∷ v ∷ v ∷ v ∷ v ∷ v ∷ v ∷ v ∷ v ∷ v ∷ v ∷ v ∷ v ∷ v ∷ v ∷ []

programs_drift_example :
    ((attempts (failed ∷ map completed (60 ∷ eighteen 60)) (server auto_slots 1, half_round)).0
      ≡ server (1500 ∷ later_slots) 19)
    × ((attempts
          (failed ∷ map completed (60 ∷ eighteen 60))
          (server auto_slots 1, half_round)).1.slots
        ≡ later_slots)
    × (tasks_done
          (attempts (failed ∷ map completed (60 ∷ eighteen 60)) (server auto_slots 1, half_round)).1
        ≡ 0)
programs_drift_example =
    programs_drift (server auto_slots 1) half_round 1500 later_slots 60 (eighteen 60)
      half_round-AreInStep refl (omega arith) refl

summaries-AreComplete_example :
    AreComplete (attempts (failed ∷ unheard ∷ one_round) (start {Float = ℕ} auto_slots)).1.summaries
summaries-AreComplete_example = summaries-AreComplete (failed ∷ unheard ∷ one_round) auto_slots

-- A whole upload of one byte, with nothing lost, the byte read by itself.
abbrev uploading_client : Connection whole_numbers
uploading_client = record {
  accepted = true;
  stream = an_end (1 ∷ put_uint64 1 ++ 7 ∷ put_uint64 0) more (0 ∷ []) [] [];
  readings = a_reading;
  process_monitor = none;
}

-- A connection without a stream, and a task type that there is not.
abbrev no_stream : Connection whole_numbers
no_stream = record uploading_client { accepted = false }

abbrev strange_client : Connection whole_numbers
strange_client = record uploading_client { stream = an_end (9 ∷ []) more [] [] [] }

abbrev visits : List (Connection whole_numbers)
visits = no_stream ∷ strange_client ∷ uploading_client ∷ []

-- The upload has number 6.
one_entry : length (entries_from whole_numbers 1500 4 visits) ≡ 1
unfolding entries_from handle_single_task dispatch run_upload_task report_upload run fails rest_of
    receive_data get_uint64 portion
one_entry = refl

abbrev lacks : ℕ → List ℕ → Bool
lacks c [] = true
lacks c (b ∷ bs) = not (b == c) && lacks c bs

abbrev is_solid : List ℕ → Bool
is_solid [] = true
is_solid (c ∷ s) = not (is_space c) && is_solid s

abbrev are_words : List (List ℕ) → Bool
are_words [] = true
are_words ([] ∷ ws) = false
are_words ((c ∷ w) ∷ ws) = is_solid (c ∷ w) && are_words ws

abbrev is_ascii : List ℕ → Bool
is_ascii [] = true
is_ascii (c ∷ s) = ltb c 128 && is_ascii s

-- A process named `a) b`.
abbrev stat_words : List (List ℕ)
stat_words =
    codes "S"
    ∷ codes "1"
    ∷ codes "1"
    ∷ codes "1"
    ∷ codes "0"
    ∷ codes "-1"
    ∷ codes "0"
    ∷ codes "0"
    ∷ codes "0"
    ∷ codes "0"
    ∷ codes "0"
    ∷ codes "120"
    ∷ codes "45"
    ∷ codes "0"
    ∷ codes "0"
    ∷ codes "20"
    ∷ codes "0"
    ∷ codes "1"
    ∷ codes "0"
    ∷ codes "99"
    ∷ codes "4096"
    ∷ codes "300"
    ∷ []

abbrev sampled : ProcessMonitor whole_numbers
sampled = record {
  samples =
      record { timestamp = 1; cpu_usage = 10; mem_usage = 5 }
      ∷ record { timestamp = 2; cpu_usage = 20; mem_usage = 5 }
      ∷ record { timestamp = 3; cpu_usage = 40; mem_usage = 7 }
      ∷ [];
  last_total = 0;
  last_proc = 0;
}

average_between-window_example : average_between whole_numbers 2 3 sampled ≡ (
  mean whole_numbers (cpus whole_numbers (window whole_numbers 2 3 sampled.samples)),
  mean whole_numbers (mems whole_numbers (window whole_numbers 2 3 sampled.samples)),
)
average_between-window_example = average_between-window whole_numbers 2 3 sampled

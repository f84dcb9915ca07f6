-- ===== src/Client.antt =====
-- client/main.go: what the client opens and closes, and when it calibrates, sleeps and changes the slot
-- duration. A run is the list of these calls; what the calls meet comes from a feed.
pub mod Ledger
pub mod Automaton
use quic_hop.Base.{ℕ, zero, suc, ◌+◌, List, [], ◌∷◌, ◌++◌, Bool, Option, none, some, if◌then◌else◌}
use quic_hop.Base.Ledger.{Run}
use quic_hop.Config.{task_rounds}
use quic_hop.Auto.{Stage, uploading, downloading, auto_slots}

-- The calls of the client, a socket with the latency that it is made with.
pub data Call : Type 0 where
  set_slot : ℕ → Call
  calibrate : ℕ → Call
  open_socket : ℕ → Call
  open_session : Call
  open_stream : Stage → Call
  close_stream : Call
  close_session : Call
  close_socket : Call
  sleep : ℕ → Call

module _ (Float : Type 0) where
  -- What becomes of an attempt: `NewClientConn`, `Dial`, `OpenStreamSync` or the rest of the task
  -- fails, or the task gives its speed.
  pub data Attempt : Type 0 where
    no_socket : Attempt
    no_session : Attempt
    no_stream : Attempt
    task_failed : Attempt
    measured : Float → Attempt

  -- What later calls meet: what each calibration finds, and what becomes of each attempt.
  pub record Feed : Type 0 where
    pub latencies : List ℕ
    pub attempts : List Attempt

module _ {A B : Type 0} where
  abbrev pub and_then : Run Call A → (A → Run Call B) → Run Call B
  and_then (calls, none) k = (calls, none)
  and_then (calls, some a) k = let later = k a in (calls ++ later.0, later.1)

-- A calibration, if one was made, and then what follows with the latency that it found.
abbrev pub with_calibration : {B : Type 0} → List ℕ → (ℕ → List ℕ → Run Call B) → Run Call B
with_calibration [] k = ([], none)
with_calibration (latency ∷ later) k =
    let run = k latency later in (calibrate latency ∷ run.0, run.1)

module _ {Float : Type 0} where
  -- `dialOnce` by what it meets, and whether it gives a connection.
  unfoldable pub dial_once : ℕ → Attempt Float → List Call
  dial_once latency no_socket = []
  dial_once latency no_session = open_socket latency ∷ close_socket ∷ []
  dial_once latency no_stream = open_socket latency ∷ open_session ∷ []
  dial_once latency task_failed = open_socket latency ∷ open_session ∷ []
  dial_once latency (measured mbps) = open_socket latency ∷ open_session ∷ []

  -- The stream of `runUploadTask` or `runDownloadTask`, closed as the function returns, and then the
  -- connection; after an error two seconds pass.
  unfoldable pub attempt_task : Stage → ℕ → Attempt Float → List Call
  unfolding dial_once
  attempt_task stage latency no_socket = dial_once latency no_socket ++ sleep 2 ∷ []
  attempt_task stage latency no_session = dial_once latency no_session ++ sleep 2 ∷ []
  attempt_task stage latency no_stream =
      dial_once latency no_stream ++ close_session ∷ close_socket ∷ sleep 2 ∷ []
  attempt_task stage latency task_failed =
      dial_once latency task_failed
      ++ open_stream stage ∷ close_stream ∷ close_session ∷ close_socket ∷ sleep 2 ∷ []
  attempt_task stage latency (measured mbps) =
      dial_once latency (measured mbps)
      ++ open_stream stage ∷ close_stream ∷ close_session ∷ close_socket ∷ []

  -- One of the two loops of a round: every attempt has the same latency.
  unfoldable pub attempt_loop :
      Stage → ℕ → List ℕ → List (Attempt Float) → Run Call (Float × Feed Float)
  unfolding attempt_task
  attempt_loop stage latency later [] = ([], none)
  attempt_loop stage latency later (a ∷ attempts) =
      let rest = attempt_loop stage latency later attempts in
      let calls = attempt_task stage latency a in
      elim a [
        | no_socket ↦ (calls ++ rest.0, rest.1)
        | no_session ↦ (calls ++ rest.0, rest.1)
        | no_stream ↦ (calls ++ rest.0, rest.1)
        | task_failed ↦ (calls ++ rest.0, rest.1)
        | measured mbps ↦ (calls, some (mbps, record { latencies = later; attempts = attempts }))
      ]

  -- One task of a round.
  unfoldable pub measure_task : Stage → Feed Float → Run Call (Float × Feed Float)
  unfolding attempt_loop
  measure_task stage feed =
      with_calibration feed.latencies
        λ latency later. attempt_loop stage latency later feed.attempts

  -- `performTransferTasks` from a round on: the speeds of the uploads and of the downloads.
  unfoldable pub perform_transfer_tasks :
      ℕ → Feed Float → List Float → List Float → Run Call ((List Float × List Float) × Feed Float)
  unfolding measure_task
  perform_transfer_tasks zero feed uploads downloads = ([], some ((uploads, downloads), feed))
  perform_transfer_tasks (suc rounds) feed uploads downloads =
      and_then (measure_task uploading feed) λ upload.
        and_then (measure_task downloading upload.1) λ download.
          perform_transfer_tasks rounds download.1 (uploads ++ upload.0 ∷ [])
            (downloads ++ download.0 ∷ [])

  -- `runClientOnce`; it returns nil whenever it returns. Its own calibration serves no connection.
  unfoldable pub run_client_once :
      ℕ → Feed Float → Run Call ((List Float × List Float) × Feed Float)
  unfolding perform_transfer_tasks
  run_client_once ms feed =
      let run = with_calibration feed.latencies λ latency later.
        perform_transfer_tasks task_rounds (record feed { latencies = later }) [] [] in
      (set_slot ms ∷ run.0, run.1)

  unfoldable pub run_auto_slots : List ℕ → Feed Float → Run Call (Feed Float)
  unfolding run_client_once
  run_auto_slots [] feed = ([], some feed)
  run_auto_slots (ms ∷ slots) feed =
      and_then (run_client_once ms feed)
        λ done. let later = run_auto_slots slots done.1 in (sleep 3 ∷ later.0, later.1)

  -- `main` after its flags are read.
  unfoldable pub client_main : Bool → ℕ → Feed Float → Run Call (Feed Float)
  unfolding run_auto_slots
  client_main auto ms feed =
      if auto
      then run_auto_slots auto_slots feed
      else and_then (run_client_once ms feed) λ done. ([], some done.1)

-- ===== src/Client/Ledger.antt =====
-- What the client opens it closes, one connection at a time.
use quic_hop.Base.{
  ℕ, zero, suc, ◌≡◌, refl, List, [], ◌∷◌, ◌++◌, Bool, true, false, Option, none, some, arith, ◌==◌,
  if◌then◌else◌,
}
use quic_hop.Base.Ledger.{Run, audit, audit-append}
use quic_hop.Config.{task_rounds}
use quic_hop.Auto.{Stage, uploading, downloading, auto_slots}
use quic_hop.Client.{
  Call, set_slot, calibrate, open_socket, open_session, open_stream, close_stream, close_session,
  close_socket, sleep, Attempt, no_socket, no_session, no_stream, task_failed, measured, Feed,
  and_then, with_calibration, dial_once, attempt_task, attempt_loop, measure_task,
  perform_transfer_tasks, run_client_once, run_auto_slots, client_main,
}

-- What is open, one inside the other.
pub data Level : Type 0 where
  nothing : Level
  socket : Level
  session : Level
  stream : Level

-- What is open, and what the latest calibration found.
pub record Held : Type 0 where
  pub level : Level
  pub latest_latency : Option ℕ

abbrev pub is_latest : ℕ → Option ℕ → Bool
is_latest latency none = false
is_latest latency (some found) = found == latency

-- One call. With nothing open the client sleeps, calibrates, sets the slot duration, and opens a
-- socket with the latency that the latest calibration found; all else is opened and closed one
-- inside the other.
abbrev pub audit_call : Level → Option ℕ → Call → Option Held
audit_call nothing c (set_slot ms) = some (record { level = nothing; latest_latency = c })
audit_call nothing c (sleep s) = some (record { level = nothing; latest_latency = c })
audit_call nothing c (calibrate found) =
    some (record { level = nothing; latest_latency = some found })
audit_call nothing c (open_socket latency) =
    if is_latest latency c then some (record { level = socket; latest_latency = c }) else none
audit_call socket c open_session = some (record { level = session; latest_latency = c })
audit_call socket c close_socket = some (record { level = nothing; latest_latency = c })
audit_call session c (open_stream stage) = some (record { level = stream; latest_latency = c })
audit_call session c close_session = some (record { level = socket; latest_latency = c })
audit_call stream c close_stream = some (record { level = session; latest_latency = c })
audit_call level c call = none

abbrev pub audit_held : Held → Call → Option Held
audit_held h call = audit_call h.level h.latest_latency call

abbrev pub resting : Option ℕ → Held
resting c = record { level = nothing; latest_latency = c }

-- The calls are as they should be from a client with nothing open, and leave nothing open.
abbrev pub IsAudited {ℓ} : {A : Type ℓ} → Option ℕ → Run Call A → Type 0
IsAudited c run = (c' : Option ℕ) × (audit audit_held run.0 (resting c) ≡ some (resting c'))

and_then-IsAudited :
    {A B : Type 0} (c : Option ℕ) (run : Run Call A) (k : A → Run Call B)
    → IsAudited c run
    → ((a : A) (c' : Option ℕ) → IsAudited c' (k a))
    → IsAudited c (and_then run k)
and_then-IsAudited c (calls, none) k first later = first
and_then-IsAudited c (calls, some a) k first later =
    let rest = later a first.0 in
    (
      rest.0,
      audit-append audit_held calls (k a).0 (resting c) (resting first.0) (resting rest.0) first.1
          rest.1,
    )

with_calibration-IsAudited :
    {B : Type 0} (latencies : List ℕ) (k : ℕ → List ℕ → Run Call B) (c : Option ℕ)
    → ((latency : ℕ) (later : List ℕ) → IsAudited (some latency) (k latency later))
    → IsAudited c (with_calibration latencies k)
with_calibration-IsAudited [] k c next = (c, refl)
with_calibration-IsAudited (latency ∷ later) k c next = next latency later

rests_between :
    (xs ys : List Call) (latency : ℕ)
    → audit audit_held xs (resting (some latency)) ≡ some (resting (some latency))
    → audit audit_held ys (resting (some latency)) ≡ some (resting (some latency))
    → audit audit_held (xs ++ ys) (resting (some latency)) ≡ some (resting (some latency))
rests_between xs ys latency e f =
    audit-append audit_held xs ys (resting (some latency)) (resting (some latency))
      (resting (some latency)) e f

module _ {Float : Type 0} where
  attempt_task-audit :
      (stage : Stage) (latency : ℕ) (a : Attempt Float)
      → audit audit_held (attempt_task stage latency a) (resting (some latency))
        ≡ some (resting (some latency))
  unfolding attempt_task dial_once
  attempt_task-audit stage latency no_socket = refl
  attempt_task-audit stage latency no_session = ground arith
  attempt_task-audit stage latency no_stream = ground arith
  attempt_task-audit stage latency task_failed = ground arith
  attempt_task-audit stage latency (measured mbps) = ground arith

  attempt_loop-audit :
      (stage : Stage) (latency : ℕ) (later : List ℕ) (attempts : List (Attempt Float))
      → audit audit_held (attempt_loop stage latency later attempts).0 (resting (some latency))
        ≡ some (resting (some latency))
  unfolding attempt_loop
  attempt_loop-audit stage latency later [] = refl
  attempt_loop-audit stage latency later (no_socket ∷ attempts) =
      rests_between (attempt_task {Float = Float} stage latency no_socket)
        (attempt_loop stage latency later attempts).0 latency
        (attempt_task-audit stage latency no_socket)
        (attempt_loop-audit stage latency later attempts)
  attempt_loop-audit stage latency later (no_session ∷ attempts) =
      rests_between (attempt_task {Float = Float} stage latency no_session)
        (attempt_loop stage latency later attempts).0 latency
        (attempt_task-audit stage latency no_session)
        (attempt_loop-audit stage latency later attempts)
  attempt_loop-audit stage latency later (no_stream ∷ attempts) =
      rests_between (attempt_task {Float = Float} stage latency no_stream)
        (attempt_loop stage latency later attempts).0 latency
        (attempt_task-audit stage latency no_stream)
        (attempt_loop-audit stage latency later attempts)
  attempt_loop-audit stage latency later (task_failed ∷ attempts) =
      rests_between (attempt_task {Float = Float} stage latency task_failed)
        (attempt_loop stage latency later attempts).0 latency
        (attempt_task-audit stage latency task_failed)
        (attempt_loop-audit stage latency later attempts)
  attempt_loop-audit stage latency later (measured mbps ∷ attempts) =
      attempt_task-audit stage latency (measured mbps)

  measure_task-IsAudited :
      (stage : Stage) (feed : Feed Float) (c : Option ℕ) → IsAudited c (measure_task stage feed)
  unfolding measure_task
  measure_task-IsAudited stage feed c =
      with_calibration-IsAudited feed.latencies _ c
        λ latency later. (some latency, attempt_loop-audit stage latency later feed.attempts)

  perform_transfer_tasks-IsAudited :
      (rounds : ℕ) (feed : Feed Float) (uploads downloads : List Float) (c : Option ℕ)
      → IsAudited c (perform_transfer_tasks rounds feed uploads downloads)
  unfolding perform_transfer_tasks
  perform_transfer_tasks-IsAudited zero feed uploads downloads c = (c, refl)
  perform_transfer_tasks-IsAudited (suc rounds) feed uploads downloads c =
      and_then-IsAudited c (measure_task uploading feed) _ (measure_task-IsAudited uploading feed c)
        λ upload c'.
          and_then-IsAudited c' (measure_task downloading upload.1) _
            (measure_task-IsAudited downloading upload.1 c')
            λ download c''.
              perform_transfer_tasks-IsAudited rounds download.1 (uploads ++ upload.0 ∷ [])
                (downloads ++ download.0 ∷ []) c''

  run_client_once-IsAudited :
      (ms : ℕ) (feed : Feed Float) (c : Option ℕ) → IsAudited c (run_client_once ms feed)
  unfolding run_client_once
  run_client_once-IsAudited ms feed c =
      with_calibration-IsAudited feed.latencies _ c λ latency later.
        perform_transfer_tasks-IsAudited task_rounds (record feed { latencies = later }) [] []
          (some latency)

  run_auto_slots-IsAudited :
      (slots : List ℕ) (feed : Feed Float) (c : Option ℕ) → IsAudited c (run_auto_slots slots feed)
  unfolding run_auto_slots
  run_auto_slots-IsAudited [] feed c = (c, refl)
  run_auto_slots-IsAudited (ms ∷ slots) feed c =
      and_then-IsAudited c (run_client_once ms feed) _ (run_client_once-IsAudited ms feed c)
        λ done c'. run_auto_slots-IsAudited slots done.1 c'

  -- Whatever its attempts meet, and however long it has been at them, the client has one connection
  -- open at most, each of its sockets, sessions and streams is closed, the inner before the outer,
  -- it never sleeps, calibrates or changes the slot duration while one is open, and each socket is
  -- made with the latency that the latest calibration found.
  pub client_main-IsAudited :
      (auto : Bool) (ms : ℕ) (feed : Feed Float) → IsAudited none (client_main auto ms feed)
  unfolding client_main
  client_main-IsAudited true ms feed = run_auto_slots-IsAudited auto_slots feed none
  client_main-IsAudited false ms feed =
      and_then-IsAudited none (run_client_once ms feed) _ (run_client_once-IsAudited ms feed none)
        λ done c'. (c', refl)

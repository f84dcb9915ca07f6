-- ===== src/Serving/Once.antt =====
-- server/main.go: what the server opens and closes in `main`, `runAutoSlots`, `serveOnce` and
-- `handleConn`. A run is the list of these calls, with whether the function
-- returned nil, or none while it waits; what the calls meet is an argument. A task that
-- panics ends the program, and with it any run.
pub mod Released
use quic_hop.Base.{
  ℕ, zero, suc, ◌-◌, List, [], ◌∷◌, ◌++◌, Bool, true, false, Option, none, some, if◌then◌else◌,
}
use quic_hop.Base.Ledger.{Run, deferring, after}
use quic_hop.Auto.{tasks_per_slot, auto_slots}

-- What is given back as the function that took it returns.
pub data Resource : Type 0 where
  context : Resource
  conn : Resource
  listener : Resource
  monitoring : Resource
  stream : Resource

pub data Call : Type 0 where
  acquire : Resource → Call
  release : Resource → Call
  set_slot : ℕ → Call
  calibration_server : Call
  qlog_dir : Call
  run_task : Call
  append_result : Call
  wait_for_peer : Call
  spawn_handler : Call
  fatal : Call

-- How `startProcessMonitor` ends: not on Linux, with an error, or with a monitor.
pub data Monitoring : Type 0 where
  elsewhere : Monitoring
  not_started : Monitoring
  running : Monitoring

-- One turn of `Accept`: an error, or a connection with what it meets: the process monitor, whether it
-- gives a stream, and whether its task ends well.
pub data Accepting : Type 0 where
  accept_failed : Accepting
  accepted : Monitoring → Bool → Bool → Accepting

unfoldable pub handle_stream : Bool → Bool → Run Call Bool
handle_stream false done = ([], some false)
handle_stream true done = after (acquire stream ∷ []) (
    deferring
      (if done
        then (run_task ∷ append_result ∷ wait_for_peer ∷ [], some true)
        else (run_task ∷ [], some false))
      (release stream))

-- `handleConn`; the monitor's context is cancelled at the end, or at once when it does not start.
unfoldable pub handle_session : Monitoring → Bool → Bool → Run Call Bool
unfolding handle_stream
handle_session elsewhere has_stream done = handle_stream has_stream done
handle_session not_started has_stream done =
    after (acquire monitoring ∷ release monitoring ∷ []) (handle_stream has_stream done)
handle_session running has_stream done =
    after (acquire monitoring ∷ []) (deferring (handle_stream has_stream done) (release monitoring))

-- The tasks of a slot that are left, over the turns of `Accept` to come.
unfoldable pub accept_loop : ℕ → List Accepting → Run Call Bool
unfolding handle_session
accept_loop zero turns = ([], some true)
accept_loop (suc left) [] = ([], none)
accept_loop (suc left) (accept_failed ∷ turns) = ([], some false)
accept_loop (suc left) (accepted m has_stream done ∷ turns) =
    let rest = accept_loop left turns in
    let handled = handle_session m has_stream done in
    elim handled.1 [
      | none ↦ handled
      | some ok ↦ if ok then after (handled.0 ++ wait_for_peer ∷ []) rest else handled
    ]

-- What `NewServerConn` and `Listen` of one `serveOnce` give, and the turns of its `Accept`.
pub data Setup : Type 0 where
  no_conn : Setup
  no_listener : Setup
  ready : List Accepting → Setup

unfoldable pub serve_setup : Setup → Run Call Bool
unfolding accept_loop
serve_setup no_conn = ([], some false)
serve_setup no_listener = after (acquire conn ∷ []) (deferring ([], some false) (release conn))
serve_setup (ready turns) = after (acquire conn ∷ []) (
    deferring
      (after (acquire listener ∷ [])
        (deferring (accept_loop tasks_per_slot turns) (release listener)))
      (release conn))

unfoldable pub serve_once : ℕ → Setup → Run Call Bool
unfolding serve_setup
serve_once ms setup =
    after (acquire context ∷ [])
      (deferring (after (set_slot ms ∷ []) (serve_setup setup)) (release context))

-- `runAutoSlots`, by what each call of `serveOnce` meets: an error leads to another one for the same
-- slot.
unfoldable pub auto_loop : List ℕ → List Setup → Run Call Bool
unfolding serve_once
auto_loop [] setups = ([], some true)
auto_loop (ms ∷ slots) [] = ([], none)
auto_loop (ms ∷ slots) (setup ∷ setups) =
    let again = auto_loop (ms ∷ slots) setups in
    let onward = auto_loop slots setups in
    let run = serve_once ms setup in
    elim run.1 [ none ↦ run | some ok ↦ if ok then after run.0 onward else after run.0 again ]

-- The endless loop of `main`: each connection gets a goroutine.
unfoldable pub spawn_loop : List Accepting → List Call
spawn_loop [] = []
spawn_loop (accept_failed ∷ turns) = spawn_loop turns
spawn_loop (accepted m has_stream done ∷ turns) = spawn_handler ∷ spawn_loop turns

-- `main` without `-auto` once its socket and its listener are asked for; `log.Fatal` ends the program.
unfoldable pub main_setup : Setup → List Call
unfolding spawn_loop
main_setup no_conn = fatal ∷ []
main_setup no_listener = acquire conn ∷ fatal ∷ []
main_setup (ready turns) = acquire conn ∷ acquire listener ∷ spawn_loop turns

abbrev pub qlog_calls : Bool → List Call
qlog_calls enable_qlog = if enable_qlog then qlog_dir ∷ [] else []

-- `main` after its flags are read.
unfoldable pub server_main : Bool → Bool → ℕ → Setup → List Setup → Run Call Bool
unfolding auto_loop main_setup
server_main true enable_qlog ms setup setups =
    after (calibration_server ∷ qlog_calls enable_qlog) (auto_loop auto_slots setups)
server_main false enable_qlog ms setup setups = (
  set_slot ms ∷ calibration_server ∷ acquire context ∷ qlog_calls enable_qlog ++ main_setup setup,
  none,
)

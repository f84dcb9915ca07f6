-- ===== src/Serving/Once/Released.antt =====
-- What the server takes it gives back.
use quic_hop.Base.{
  ℕ, zero, suc, ◌≡◌, refl, ◌∙◌, List, [], ◌∷◌, ◌++◌, Bool, true, false, Option, none, some,
  if◌then◌else◌,
}
use quic_hop.Base.Ledger.{
  Run, deferring, after, audit-append, IsKept, after-IsKept, deferring-IsKept,
}
use quic_hop.Auto.{tasks_per_slot, auto_slots}
use quic_hop.Serving.Once.{
  Resource, context, conn, listener, monitoring, stream, Call, acquire, release, set_slot,
  calibration_server, qlog_dir, run_task, append_result, wait_for_peer, Monitoring, elsewhere,
  not_started, running, Accepting, accept_failed, accepted, handle_stream, handle_session,
  accept_loop, Setup, no_conn, no_listener, ready, serve_setup, serve_once, auto_loop, server_main,
}

abbrev pub same : Resource → Resource → Bool
same context context = true
same conn conn = true
same listener listener = true
same monitoring monitoring = true
same stream stream = true
same a b = false

abbrev pub is_bound : List Resource → Bool
is_bound [] = false
is_bound (conn ∷ held) = true
is_bound (r ∷ held) = is_bound held

-- What is held, the latest first: only that one is given back, and the slot duration is not set
-- while a connection is bound.
abbrev pub audit_call : List Resource → Call → Option (List Resource)
audit_call held (acquire r) = some (r ∷ held)
audit_call [] (release r) = none
audit_call (top ∷ held) (release r) = if same top r then some held else none
audit_call held (set_slot ms) = if is_bound held then none else some held
audit_call held call = some held

-- A run that returns holds what it held before; one that waits may hold more.
abbrev pub IsReleased : List Resource → Run Call Bool → Type 0
IsReleased = IsKept audit_call

takes : (r : Resource) (held : List Resource) → audit_call held (acquire r) ≡ some (r ∷ held)
takes r held = refl

released_last :
    (r : Resource) (held : List Resource) → audit_call (r ∷ held) (release r) ≡ some held
released_last context held = refl
released_last conn held = refl
released_last listener held = refl
released_last monitoring held = refl
released_last stream held = refl

hold-IsReleased :
    (r : Resource) (run : Run Call Bool) (held : List Resource)
    → IsReleased (r ∷ held) run
    → IsReleased held (after (acquire r ∷ []) (deferring run (release r)))
hold-IsReleased r run held =
    deferring-IsKept audit_call (acquire r) (release r) run held (r ∷ held) (takes r held)
      (released_last r held)

handle_stream-IsReleased :
    (has_stream done : Bool) (held : List Resource)
    → IsReleased held (handle_stream has_stream done)
unfolding handle_stream
handle_stream-IsReleased false done held = (held, refl, λ ok e. refl)
handle_stream-IsReleased true true held =
    hold-IsReleased stream (run_task ∷ append_result ∷ wait_for_peer ∷ [], some true) held
      (stream ∷ held, refl, λ ok e. refl)
handle_stream-IsReleased true false held =
    hold-IsReleased stream (run_task ∷ [], some false) held (stream ∷ held, refl, λ ok e. refl)

handle_session-IsReleased :
    (m : Monitoring) (has_stream done : Bool) (held : List Resource)
    → IsReleased held (handle_session m has_stream done)
unfolding handle_session
handle_session-IsReleased elsewhere has_stream done held =
    handle_stream-IsReleased has_stream done held
handle_session-IsReleased not_started has_stream done held =
    after-IsKept audit_call (acquire monitoring ∷ release monitoring ∷ [])
      (handle_stream has_stream done) held refl (handle_stream-IsReleased has_stream done held)
handle_session-IsReleased running has_stream done held =
    hold-IsReleased monitoring (handle_stream has_stream done) held
      (handle_stream-IsReleased has_stream done (monitoring ∷ held))

waits : (held : List Resource) → audit_call held wait_for_peer ≡ some held
waits [] = refl
waits (r ∷ held) = refl

-- A loop's turn that ran, and what follows when it went well.
turn-IsReleased :
    (run rest : Run Call Bool) (held : List Resource)
    → IsReleased held run
    → IsReleased held rest
    → IsReleased held (elim run.1 [
      | none ↦ run
      | some ok ↦ if ok then after (run.0 ++ wait_for_peer ∷ []) rest else run
    ])
turn-IsReleased (calls, none) rest held one later = one
turn-IsReleased (calls, some false) rest held one later = one
turn-IsReleased (calls, some true) rest held one later =
    after-IsKept audit_call (calls ++ wait_for_peer ∷ []) rest held
      (audit-append audit_call calls (wait_for_peer ∷ []) held held held
        (one.1 ∙ rw (one.2 true refl)) (rw (waits held)))
      later

accept_loop-IsReleased :
    (left : ℕ) (turns : List Accepting) (held : List Resource)
    → IsReleased held (accept_loop left turns)
unfolding accept_loop
accept_loop-IsReleased zero turns held = (held, refl, λ ok e. refl)
accept_loop-IsReleased (suc left) [] held = (held, refl, λ ok e. refl)
accept_loop-IsReleased (suc left) (accept_failed ∷ turns) held = (held, refl, λ ok e. refl)
accept_loop-IsReleased (suc left) (accepted m has_stream done ∷ turns) held =
    turn-IsReleased (handle_session m has_stream done) (accept_loop left turns) held
      (handle_session-IsReleased m has_stream done held) (accept_loop-IsReleased left turns held)

serve_setup-IsReleased :
    (setup : Setup) (held : List Resource) → IsReleased held (serve_setup setup)
unfolding serve_setup
serve_setup-IsReleased no_conn held = (held, refl, λ ok e. refl)
serve_setup-IsReleased no_listener held =
    hold-IsReleased conn ([], some false) held (conn ∷ held, refl, λ ok e. refl)
serve_setup-IsReleased (ready turns) held = hold-IsReleased conn _ held (
    hold-IsReleased listener (accept_loop tasks_per_slot turns) (conn ∷ held)
      (accept_loop-IsReleased tasks_per_slot turns (listener ∷ conn ∷ held)))

serve_once-IsReleased : (ms : ℕ) (setup : Setup) → IsReleased [] (serve_once ms setup)
unfolding serve_once
serve_once-IsReleased ms setup =
    hold-IsReleased context (after (set_slot ms ∷ []) (serve_setup setup)) [] (
      after-IsKept audit_call (set_slot ms ∷ []) (serve_setup setup) (context ∷ []) refl
        (serve_setup-IsReleased setup (context ∷ [])))

slot-IsReleased :
    (run again onward : Run Call Bool)
    → IsReleased [] run
    → IsReleased [] again
    → IsReleased [] onward
    → IsReleased []
        (elim run.1 [ none ↦ run | some ok ↦ if ok then after run.0 onward else after run.0 again ])
slot-IsReleased (calls, none) again onward one second third = one
slot-IsReleased (calls, some true) again onward one second third =
    after-IsKept audit_call calls onward [] (one.1 ∙ rw (one.2 true refl)) third
slot-IsReleased (calls, some false) again onward one second third =
    after-IsKept audit_call calls again [] (one.1 ∙ rw (one.2 false refl)) second

auto_loop-IsReleased :
    (slots : List ℕ) (setups : List Setup) → IsReleased [] (auto_loop slots setups)
unfolding auto_loop
auto_loop-IsReleased [] setups = ([], refl, λ ok e. refl)
auto_loop-IsReleased (ms ∷ slots) [] = ([], refl, λ ok e. refl)
auto_loop-IsReleased (ms ∷ slots) (setup ∷ setups) =
    slot-IsReleased (serve_once ms setup) (auto_loop (ms ∷ slots) setups) (auto_loop slots setups)
      (serve_once-IsReleased ms setup) (auto_loop-IsReleased (ms ∷ slots) setups)
      (auto_loop-IsReleased slots setups)

-- With `-auto`, whatever its calls meet, the server gives back each context, connection, listener,
-- monitor and stream in the reverse of the order in which it took them, changes the slot duration
-- only while no connection is bound, and holds nothing once the slots are through.
pub server_main-IsReleased :
    (enable_qlog : Bool) (ms : ℕ) (setup : Setup) (setups : List Setup)
    → IsReleased [] (server_main true enable_qlog ms setup setups)
unfolding server_main
server_main-IsReleased true ms setup setups =
    after-IsKept audit_call (calibration_server ∷ qlog_dir ∷ []) (auto_loop auto_slots setups) []
      refl (auto_loop-IsReleased auto_slots setups)
server_main-IsReleased false ms setup setups =
    after-IsKept audit_call (calibration_server ∷ []) (auto_loop auto_slots setups) [] refl
      (auto_loop-IsReleased auto_slots setups)

-- ===== src/Tests/Programs.antt =====
-- The two programs, their tracers, and the calibration server, on concrete inputs.
use quic_hop.Base.{
  ℕ, ◌+◌, ◌≡◌, refl, List, [], ◌∷◌, ◌++◌, true, false, Option, none, some, arith, map, length, take,
  replicate, length-replicate, get_or-replicate,
}
use quic_hop.Algo.Codec.{obfuscate, deobfuscate, put_uint16}
use quic_hop.Task.Loss.{Event, packet_lost, packet_sent, other, record_events}
use quic_hop.Task.Tracing.{Qlog, Traced}
use quic_hop.Task.Tracing.Transparent.{traced, untraced, traced-transparent}
use quic_hop.Calibration.Listening.{
  Arriving, read_failed, datagram, listening, start_calibration_server,
}
use quic_hop.Calibration.Answers.{answers, calibration_answers}
use quic_hop.Client.{
  no_socket, no_session, no_stream, task_failed, measured, Feed, client_main, run_auto_slots,
  run_client_once, perform_transfer_tasks, measure_task, attempt_loop,
}
use quic_hop.Client.Automaton.{at_start, try_all, run_auto_slots-try_all}
use quic_hop.Client.Ledger.{IsAudited, client_main-IsAudited}
use quic_hop.Serving.Once.{
  Setup, no_conn, no_listener, ready, accept_failed, accepted, elsewhere, not_started, running,
  server_main,
}
use quic_hop.Serving.Once.Released.{IsReleased, server_main-IsReleased}
use quic_hop.Conn.CidGenerator.{
  CidLibrary, cid_generator, generate_connection_id, connection_id_len, generated_cids_hide,
}
use quic_hop.Base.Ledger.{IsKept}
use quic_hop.Cpumon.Setup.{Opening, audit_call, monitor_calls, monitor_calls-IsKept}
use quic_hop.Config.{codes}
use quic_hop.Tests.{counter_rand}

-- A log that is the list of the events' kinds, closed with an error.
abbrev list_log : Qlog
list_log = record {
  Log = List Event;
  Trace = ℕ;
  Recorder = ℕ;
  QlogEvent = Event;
  packet_type_1rtt = 1;
  event_of = λ e. e;
  default_connection_tracer = λ is_client id log. (some 1, log);
  trace_add_producer = λ t log. (some 2, log);
  trace_supports_schemas = λ t schema log. false;
  recorder_record_event = λ r e log. e ∷ log;
  recorder_close = λ r log. (some (codes "closed"), log);
}

abbrev some_events : List Event
some_events = packet_sent 1 ∷ packet_lost 1 ∷ other ∷ packet_sent 0 ∷ []

abbrev quiet : Traced list_log
quiet = record { stats = record { sent = 5; lost = 2 }; log = [] }

traced-transparent_example :
    let own = untraced list_log true [] some_events quiet.log in
    let stats =
      record_events list_log.packet_type_1rtt (map list_log.event_of some_events) quiet.stats in
    (traced list_log true true [] some_events quiet
      ≡ (own.0, record { stats = stats; log = own.1 }))
    × (traced list_log false true [] some_events quiet
        ≡ (none, record { stats = stats; log = quiet.log }))
traced-transparent_example = traced-transparent list_log true [] some_events quiet

-- A whole stamp, an error, and a datagram too short for a stamp.
abbrev arriving : List Arriving
arriving =
    datagram (0 ∷ 0 ∷ 0 ∷ 0 ∷ 0 ∷ 0 ∷ 3 ∷ 232 ∷ []) (codes "10.0.0.7:1") 1000
    ∷ read_failed
    ∷ datagram (7 ∷ 7 ∷ []) (codes "10.0.0.8:1") 2000
    ∷ []

calibration_answers_example : start_calibration_server (listening arriving) ≡ answers arriving
calibration_answers_example = calibration_answers arriving

abbrev feed : Feed ℕ
feed = record {
  latencies = 5 ∷ 6 ∷ 7 ∷ 8 ∷ [];
  attempts =
      no_socket
      ∷ no_session
      ∷ measured 90
      ∷ no_stream
      ∷ task_failed
      ∷ measured 80
      ∷ no_session
      ∷ [];
}

client_main-IsAudited_example : IsAudited none (client_main true 1000 feed)
client_main-IsAudited_example = client_main-IsAudited true 1000 feed

abbrev setups : List Setup
setups =
    no_conn
    ∷ no_listener
    ∷ ready (accepted running true true ∷ accepted not_started true false ∷ [])
    ∷ ready (accepted elsewhere true true ∷ accept_failed ∷ [])
    ∷ []

server_main-IsReleased_example : IsReleased [] (server_main true true 1000 no_conn setups)
server_main-IsReleased_example = server_main-IsReleased true 1000 no_conn setups

-- A source that gives zeros.
abbrev zeros : CidLibrary
zeros = record {
  Source = ℕ;
  read = λ b r. (replicate (length b) 0, r + 1);
  read_fills = λ b r.
      (length-replicate (length b) 0, λ i. omega (arith, get_or-replicate {A = ℕ} (length b) 0 i));
  connection_id_from_bytes = λ b. b;
  copies = λ b few. refl;
}

generated_cids_hide_example :
    let cid = (generate_connection_id zeros cid_generator 0).0 in
    (length cid ≡ connection_id_len zeros cid_generator)
    × ((wire : List ℕ) × (obfuscate counter_rand cid 7 ≡ some wire)
        × (length wire ≡ length cid)
        × (take 2 wire ≡ put_uint16 7)
        × (deobfuscate counter_rand wire ≡ some (take 7 cid ++ replicate 9 0)))
generated_cids_hide_example = generated_cids_hide zeros counter_rand 0 7 (omega arith)

-- The log and the first file are opened, the second is not.
abbrev opening : Opening
opening = record {
  has_dir = true;
  dir_made = true;
  log_opened = true;
  stat_opened = true;
  meminfo_opened = false;
  looped = none;
}

monitor_calls-IsKept_example :
    IsKept audit_call [] (monitor_calls (codes "20260109_123456") [] opening)
monitor_calls-IsKept_example = monitor_calls-IsKept (codes "20260109_123456") [] opening

-- One slot's attempts, the first of which fails.
abbrev whole_slot : Feed ℕ
whole_slot = record {
  latencies = replicate 21 5;
  attempts = no_session ∷ replicate 20 (measured 90);
}

abbrev used_up : Feed ℕ
used_up = record { latencies = []; attempts = [] }

slot_ends : (run_auto_slots (1000 ∷ []) whole_slot).1 ≡ some used_up
unfolding run_auto_slots run_client_once perform_transfer_tasks measure_task attempt_loop
slot_ends = refl

run_auto_slots-try_all_example :
    (more : List (Option (List (ℕ × ℕ)))) × (try_all whole_slot.attempts (at_start (1000 ∷ []) [])
      ≡ at_start [] ([] ++ more))
    × (length more ≡ 1)
run_auto_slots-try_all_example = run_auto_slots-try_all (1000 ∷ []) whole_slot used_up [] slot_ends

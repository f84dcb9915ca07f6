-- ===== src/Task/Tracing.antt =====
-- The tracers of server/main.go and client/main.go, which count packets on their way to the default
-- tracer of quic-go. The two programs declare them alike.
pub mod Transparent
use quic_hop.Base.{ℕ, List, [], ◌∷◌, Bool, true, Option, none, some, if◌then◌else◌}
use quic_hop.Task.Loss.{LossStats, Event, record_event}

-- What quic-go's qlog packages give: their log is a state, an event has a
-- Go type and, if it is of a packet, that packet's type in its header (`event_of`), one of which is
-- `PacketType1RTT`, and an error is a text.
pub record Qlog : Type 1 where
  pub Log : Type 0
  pub Trace : Type 0
  pub Recorder : Type 0
  pub QlogEvent : Type 0
  pub packet_type_1rtt : ℕ
  pub event_of : QlogEvent → Event
  pub default_connection_tracer : Bool → List ℕ → Log → Option Trace × Log
  pub trace_add_producer : Trace → Log → Option Recorder × Log
  pub trace_supports_schemas : Trace → List ℕ → Log → Bool
  pub recorder_record_event : Recorder → QlogEvent → Log → Log
  pub recorder_close : Recorder → Log → Option (List ℕ) × Log

module _ (q : Qlog) where
  -- What a tracer or a recorder holds beside the counters, which all of them share.
  pub record LossTrace : Type 0 where
    pub inner : Option q.Trace

  pub record LossRecorder : Type 0 where
    pub inner : Option q.Recorder

  pub record Traced : Type 0 where
    pub stats : LossStats
    pub log : q.Log

  unfoldable pub make_loss_tracer : Bool → Bool → List ℕ → Traced → LossTrace × Traced
  make_loss_tracer enable_qlog is_client conn_id w =
      if enable_qlog
      then (let (inner, log) = q.default_connection_tracer is_client conn_id w.log in
          (record { inner = inner }, record w { log = log }))
      else (record { inner = none }, w)

  unfoldable pub add_producer : LossTrace → Traced → LossRecorder × Traced
  add_producer t w = elim t.inner [
    | none ↦ (record { inner = none }, w)
    | some inner ↦
        let (producer, log) = q.trace_add_producer inner w.log in
        (record { inner = producer }, record w { log = log })
  ]

  unfoldable pub supports_schemas : LossTrace → List ℕ → Traced → Bool
  supports_schemas t schema w = elim t.inner [
    | none ↦ true
    | some inner ↦ q.trace_supports_schemas inner schema w.log
  ]

  -- `RecordEvent`: counted, then passed on.
  unfoldable pub relay_event : LossRecorder → q.QlogEvent → Traced → Traced
  relay_event r ev w =
      let counted = record_event q.packet_type_1rtt (q.event_of ev) w.stats in
      elim r.inner [
        | none ↦ record w { stats = counted }
        | some inner ↦ record { stats = counted; log = q.recorder_record_event inner ev w.log }
      ]

  unfoldable pub close_recorder : LossRecorder → Traced → Option (List ℕ) × Traced
  close_recorder r w = elim r.inner [
    | none ↦ (none, w)
    | some inner ↦ let (err, log) = q.recorder_close inner w.log in (err, record w { log = log })
  ]

  -- The events of several connections, in the order in which they come.
  unfoldable pub relay_events : List (LossRecorder × q.QlogEvent) → Traced → Traced
  unfolding relay_event
  relay_events [] w = w
  relay_events ((r, ev) ∷ evs) w = relay_events evs (relay_event r ev w)

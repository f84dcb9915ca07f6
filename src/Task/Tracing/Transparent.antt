-- ===== src/Task/Tracing/Transparent.antt =====
-- The counting tracer is transparent: quic-go's own tracer sees what it would see without it.
use quic_hop.Base.{
  ℕ, ap, ◌≡◌, refl, List, [], ◌∷◌, Bool, true, false, Option, none, some, map, Option-cases, inl,
  inr, ◌∙◌,
}
use quic_hop.Task.Loss.{Event, record_events}
use quic_hop.Task.Tracing.{
  Qlog, LossRecorder, Traced, make_loss_tracer, add_producer, relay_event, close_recorder,
  relay_events,
}

module _ (q : Qlog) where
  -- What quic-go's recorders do with the events that reach them.
  abbrev pub logged : List (LossRecorder q × q.QlogEvent) → q.Log → q.Log
  logged [] log = log
  logged ((r, ev) ∷ evs) log = elim r.inner [
    | none ↦ logged evs log
    | some inner ↦ logged evs (q.recorder_record_event inner ev log)
  ]

  abbrev pub own_events : q.Recorder → List q.QlogEvent → q.Log → q.Log
  own_events r [] log = log
  own_events r (ev ∷ evs) log = own_events r evs (q.recorder_record_event r ev log)

  abbrev pub kinds : List (LossRecorder q × q.QlogEvent) → List Event
  kinds [] = []
  kinds ((r, ev) ∷ evs) = q.event_of ev ∷ kinds evs

  -- The events of any number of connections, in any order, change the counters as the plain counting
  -- of all of them does, whichever connection each belongs to, and quic-go's log as its own
  -- recorders do, if there are any.
  pub relay_events_lem :
      (evs : List (LossRecorder q × q.QlogEvent)) (w : Traced q)
      → relay_events q evs w ≡ record {
        stats = record_events q.packet_type_1rtt (kinds evs) w.stats;
        log = logged evs w.log;
      }
  unfolding relay_events relay_event record_events
  relay_events_lem [] w = refl
  relay_events_lem ((r, ev) ∷ evs) w = elim (Option-cases r.inner) [
    | inl alone ↦ relay_events_lem evs (relay_event q r ev w) ∙ rw (relay_event, alone)
    | inr (inner, there) ↦ relay_events_lem evs (relay_event q r ev w) ∙ rw (relay_event, there)
  ]

  -- One connection's trace from its tracer to the end of its recorder.
  abbrev pub traced :
      Bool → Bool → List ℕ → List q.QlogEvent → Traced q → Option (List ℕ) × Traced q
  traced enable is_client conn_id evs w =
      let (t, w') = make_loss_tracer q enable is_client conn_id w in
      let (r, w'') = add_producer q t w' in
      close_recorder q r (relay_events q (map (λ ev. (r, ev)) evs) w'')

  -- The same connection with quic-go's tracer alone.
  abbrev pub own_recorder : Option q.Recorder → List q.QlogEvent → q.Log → Option (List ℕ) × q.Log
  own_recorder none evs log = (none, log)
  own_recorder (some r) evs log = q.recorder_close r (own_events r evs log)

  abbrev pub own_trace : Option q.Trace → List q.QlogEvent → q.Log → Option (List ℕ) × q.Log
  own_trace none evs log = (none, log)
  own_trace (some t) evs log =
      let (recorder, log') = q.trace_add_producer t log in own_recorder recorder evs log'

  abbrev pub untraced : Bool → List ℕ → List q.QlogEvent → q.Log → Option (List ℕ) × q.Log
  untraced is_client conn_id evs log =
      let (trace, log') = q.default_connection_tracer is_client conn_id log in
      own_trace trace evs log'

  kinds-map :
      (r : LossRecorder q) (evs : List q.QlogEvent)
      → kinds (map (λ ev. (r, ev)) evs) ≡ map q.event_of evs
  kinds-map r [] = refl
  kinds-map r (ev ∷ evs) = ap (λ (x : List Event). q.event_of ev ∷ x) (kinds-map r evs)

  logged_without :
      (evs : List q.QlogEvent) (log : q.Log)
      → logged (map (λ ev. (record { inner = none }, ev)) evs) log ≡ log
  logged_without [] log = refl
  logged_without (ev ∷ evs) log = logged_without evs log

  logged_through :
      (r : q.Recorder) (evs : List q.QlogEvent) (log : q.Log)
      → logged (map (λ ev. (record { inner = some r }, ev)) evs) log ≡ own_events r evs log
  logged_through r [] log = refl
  logged_through r (ev ∷ evs) log = logged_through r evs (q.recorder_record_event r ev log)

  relay_own :
      (r : LossRecorder q) (evs : List q.QlogEvent) (w : Traced q)
      → relay_events q (map (λ ev. (r, ev)) evs) w ≡ record {
        stats = record_events q.packet_type_1rtt (map q.event_of evs) w.stats;
        log = logged (map (λ ev. (r, ev)) evs) w.log;
      }
  relay_own r evs w = relay_events_lem (map (λ ev. (r, ev)) evs) w ∙ rw (kinds-map r evs)

  recorder_closes :
      (o : Option q.Recorder) (evs : List q.QlogEvent) (w : Traced q)
      → let r : LossRecorder q = record { inner = o } in
        close_recorder q r (relay_events q (map (λ ev. (r, ev)) evs) w) ≡ (
          (own_recorder o evs w.log).0,
          record {
            stats = record_events q.packet_type_1rtt (map q.event_of evs) w.stats;
            log = (own_recorder o evs w.log).1;
          },
        )
  unfolding close_recorder
  recorder_closes none evs w =
      rw (relay_own (record { inner = none }) evs w, logged_without evs w.log) refl
  recorder_closes (some r) evs w =
      rw (relay_own (record { inner = some r }) evs w, logged_through r evs w.log) refl

  trace_closes :
      (o : Option q.Trace) (evs : List q.QlogEvent) (w : Traced q)
      → let (r, w') = add_producer q (record { inner = o }) w in
        close_recorder q r (relay_events q (map (λ ev. (r, ev)) evs) w') ≡ (
          (own_trace o evs w.log).0,
          record {
            stats = record_events q.packet_type_1rtt (map q.event_of evs) w.stats;
            log = (own_trace o evs w.log).1;
          },
        )
  unfolding add_producer
  trace_closes none evs w = recorder_closes none evs w
  trace_closes (some t) evs w =
      recorder_closes (q.trace_add_producer t w.log).0 evs
        (record w { log = (q.trace_add_producer t w.log).1 })

  -- A connection's trace returns the error and leaves the log that quic-go's tracer alone would, and
  -- counts every event; with qlog off it counts alike, returns no error and leaves the log as it is.
  pub traced-transparent :
      (is_client : Bool) (conn_id : List ℕ) (evs : List q.QlogEvent) (w : Traced q)
      → let own = untraced is_client conn_id evs w.log in
        let stats = record_events q.packet_type_1rtt (map q.event_of evs) w.stats in
        (traced true is_client conn_id evs w ≡ (own.0, record { stats = stats; log = own.1 }))
        × (traced false is_client conn_id evs w ≡ (none, record { stats = stats; log = w.log }))
  unfolding make_loss_tracer
  traced-transparent is_client conn_id evs w = (
    trace_closes (q.default_connection_tracer is_client conn_id w.log).0 evs
        (record w { log = (q.default_connection_tracer is_client conn_id w.log).1 }),
    trace_closes none evs w,
  )

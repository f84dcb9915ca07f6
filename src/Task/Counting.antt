-- ===== src/Task/Counting.antt =====
-- What the two loss counters say between two snapshots, wrap-around included.
use quic_hop.Base.{
  ℕ, ◌+◌, ◌^◌, ◌≤◌, ◌<◌, ◌≡◌, ap₂, List, [], ◌∷◌, arith, length, u64, some, Bool-cases, inl, inr,
  ◌==◌, if◌then◌else◌,
}
use quic_hop.Floats.{Floats}
use quic_hop.Task.Loss.{
  LossStats, Event, packet_lost, packet_sent, other, record_event, record_events, snapshot_loss,
  elapsed, loss_percentage,
}

module _ (packet_type_1rtt : ℕ) where
  -- The 1-RTT packets among the events that were sent, and that were lost.
  abbrev pub sent_in : List Event → ℕ
  sent_in [] = 0
  sent_in (packet_sent packet_type ∷ es) =
      sent_in es + (if packet_type == packet_type_1rtt then 1 else 0)
  sent_in (packet_lost packet_type ∷ es) = sent_in es
  sent_in (other ∷ es) = sent_in es

  abbrev pub lost_in : List Event → ℕ
  lost_in [] = 0
  lost_in (packet_sent packet_type ∷ es) = lost_in es
  lost_in (packet_lost packet_type ∷ es) =
      lost_in es + (if packet_type == packet_type_1rtt then 1 else 0)
  lost_in (other ∷ es) = lost_in es

  abbrev Counts : List Event → LossStats → Type 0
  Counts es s =
      ((record_events packet_type_1rtt es s).sent ≡ u64 (s.sent + sent_in es))
      × ((record_events packet_type_1rtt es s).lost ≡ u64 (s.lost + lost_in es))

  elapsed-record_events :
      (es : List Event) (s : LossStats) → s.sent < 2 ^ 64 → s.lost < 2 ^ 64 → Counts es s
  unfolding record_events record_event
  elapsed-record_events [] s small small' = (omega (arith, small), omega (arith, small'))
  elapsed-record_events (packet_lost packet_type ∷ es) s small small' =
      elim (Bool-cases (packet_type == packet_type_1rtt)) [
        | inr other_type ↦
            let later = elapsed-record_events es s small small' in
            rw (record_events, record_event, other_type)
              (omega (arith, later.0), omega (arith, later.1))
        | inl one_rtt ↦
            let later =
              elapsed-record_events es (record s { lost = u64 (s.lost + 1) }) small (omega arith) in
            rw (record_events, record_event, one_rtt) (later.0, omega (arith, later.1))
      ]
  elapsed-record_events (packet_sent packet_type ∷ es) s small small' =
      elim (Bool-cases (packet_type == packet_type_1rtt)) [
        | inr other_type ↦
            let later = elapsed-record_events es s small small' in
            rw (record_events, record_event, other_type)
              (omega (arith, later.0), omega (arith, later.1))
        | inl one_rtt ↦
            let later =
              elapsed-record_events es (record s { sent = u64 (s.sent + 1) }) (omega arith)
                small' in
            rw (record_events, record_event, one_rtt) (omega (arith, later.0), later.1)
      ]
  elapsed-record_events (other ∷ es) s small small' = elapsed-record_events es s small small'

  sent_in-bound : (es : List Event) → sent_in es + lost_in es ≤ length es
  sent_in-bound [] = omega arith
  sent_in-bound (packet_lost packet_type ∷ es) = ground (arith, sent_in-bound es)
  sent_in-bound (packet_sent packet_type ∷ es) = ground (arith, sent_in-bound es)
  sent_in-bound (other ∷ es) = omega (arith, sent_in-bound es)

module _ (f : Floats) (packet_type_1rtt : ℕ) where
  abbrev pub ratio : ℕ → ℕ → f.Float
  ratio lost sent =
      if sent == 0
      then f.of_uint64 0
      else f.div (f.mul (f.of_uint64 lost) (f.of_uint64 100)) (f.of_uint64 sent)

  -- Fewer than 2^64 events between two snapshots: the percentage is that of the 1-RTT packets among
  -- them that were lost and that were sent, packets of other types and other events left out, also when a counter wraps around in between.
  pub loss_percentage-record_events :
      (es : List Event) (s : LossStats)
      → s.sent < 2 ^ 64
      → s.lost < 2 ^ 64
      → length es < 2 ^ 64
      → loss_percentage f
          (snapshot_loss (some s))
          (snapshot_loss (some (record_events packet_type_1rtt es s)))
        ≡ ratio (lost_in packet_type_1rtt es) (sent_in packet_type_1rtt es)
  unfolding loss_percentage snapshot_loss
  loss_percentage-record_events es s small small' few =
      let counted = elapsed-record_events packet_type_1rtt es s small small' in
      let bound = sent_in-bound packet_type_1rtt es in
      let sent : elapsed s.sent (record_events packet_type_1rtt es s).sent
          ≡ sent_in packet_type_1rtt es =
        omega (arith, counted.0, bound) in
      let lost : elapsed s.lost (record_events packet_type_1rtt es s).lost
          ≡ lost_in packet_type_1rtt es =
        omega (arith, counted.1, bound) in
      ap₂ ratio lost sent

-- ===== src/Task/Loss.antt =====
-- The counters of sent and lost packets, the same in both programs, and the percentage over a task.
use quic_hop.Base.{ℕ, ◌+◌, ◌-◌, ◌^◌, List, [], ◌∷◌, Option, none, some, u64, ◌==◌, if◌then◌else◌}
use quic_hop.Floats.{Floats}

pub record LossStats : Type 0 where
  pub sent : ℕ
  pub lost : ℕ

-- An event by its Go type, which the recorder switches on, with the `Header.PacketType` of the two that
-- it knows. Packet types are numbered; all that the recorder asks is whether one is `PacketType1RTT`.
pub data Event : Type 0 where
  packet_lost : ℕ → Event
  packet_sent : ℕ → Event
  other : Event

module _ (packet_type_1rtt : ℕ) where
  -- The counting part of `RecordEvent`.
  unfoldable pub record_event : Event → LossStats → LossStats
  record_event (packet_lost packet_type) s =
      if packet_type == packet_type_1rtt then record s { lost = u64 (s.lost + 1) } else s
  record_event (packet_sent packet_type) s =
      if packet_type == packet_type_1rtt then record s { sent = u64 (s.sent + 1) } else s
  record_event other s = s

  unfoldable pub record_events : List Event → LossStats → LossStats
  unfolding record_event
  record_events [] s = s
  record_events (e ∷ es) s = record_events es (record_event e s)

-- `none` is a nil pointer.
unfoldable pub snapshot_loss : Option LossStats → ℕ × ℕ
snapshot_loss none = (0, 0)
snapshot_loss (some s) = (s.sent, s.lost)

-- `post - pre` of `uint64`.
abbrev pub elapsed : ℕ → ℕ → ℕ
elapsed pre post = u64 (post + (2 ^ 64 - pre))

module _ (f : Floats) where
  unfoldable pub loss_percentage : ℕ × ℕ → ℕ × ℕ → f.Float
  loss_percentage (pre_sent, pre_lost) (post_sent, post_lost) =
      let delta_sent = elapsed pre_sent post_sent in
      let delta_lost = elapsed pre_lost post_lost in
      if delta_sent == 0
      then f.of_uint64 0
      else f.div (f.mul (f.of_uint64 delta_lost) (f.of_uint64 100)) (f.of_uint64 delta_sent)

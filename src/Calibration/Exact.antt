-- ===== src/Calibration/Exact.antt =====
-- The estimate where clocks and network are steady.
use quic_hop.Base.{
  ℕ, zero, suc, ◌+◌, ◌*◌, ◌^◌, ◌≡◌, ◌<◌, ◌≤◌, refl, ◌≢◌, ◌⊎◌, inl, inr, List, some, arith, u64,
  true, false, ◌==◌, ==_iff, if◌then◌else◌, Bool-cases, ap,
}
use native.Mathlib.Nat.{suc-mul}
use quic_hop.Algo.Codec.{copy}
use quic_hop.Clock.{put_uint64}
use quic_hop.Calibration.{
  get_uint64, server_reply, Attempt, Estimate, first_estimate, send_and_recv, measure, latest,
  is_negative, add_int64, sub_int64, div_int64, sync_attempt, average, sync_loop, sync_with_server,
  returned, measured,
}

pub get_uint64-put_uint64 : (v : ℕ) → v < 2 ^ 64 → get_uint64 (put_uint64 v) ≡ v
unfolding get_uint64
get_uint64-put_uint64 v h = omega arith

-- The server reads the stamp that was written.
server_reply-put_uint64 :
    (now v : ℕ)
    → v < 2 ^ 64
    → server_reply now (put_uint64 v) ≡ put_uint64 (if v == now then 0 else now)
unfolding server_reply
server_reply-put_uint64 now v h =
    ap (λ (x : ℕ). put_uint64 (if x == now then 0 else now)) (get_uint64-put_uint64 v h)

-- So does the client, into the payload it sent.
reply_read :
    (payload : ℕ) (v : ℕ) → v < 2 ^ 64 → get_uint64 (copy (put_uint64 payload) (put_uint64 v)) ≡ v
reply_read payload v h = get_uint64-put_uint64 v h

-- A small signed number, by its bit pattern.
abbrev pub IsSmall : ℕ → Type 0
IsSmall v = (v < 2 ^ 61) ⊎ ((2 ^ 64 ≤ v + 2 ^ 61) × (v < 2 ^ 64))

-- The server's clock when a payload arrives.
abbrev pub server_clock : ℕ → ℕ → Attempt → ℕ
server_clock offset delay a = u64 (a.sent_at + delay + offset)

-- An attempt that the modelled server answers, its clock off by `offset`, each way taking `delay`, and
-- whose two clock readings before the send agree.
pub record IsSteady (offset delay : ℕ) (a : Attempt) : Type 0 where
  pub at_once : a.now ≡ a.sent_at
  pub in_range : a.sent_at + delay * 2 < 2 ^ 63
  pub running : server_clock offset delay a ≢ 0
  pub answers :
      (payload : List ℕ)
      → a.exchange payload
        ≡ some (server_reply (server_clock offset delay a) payload, a.sent_at + delay * 2)

abbrev stamp : Attempt → ℕ → ℕ
stamp a predicted = if is_negative predicted then a.sent_at else predicted

module _ (offset delay : ℕ) (small : IsSmall offset) (short : delay < 2 ^ 60) where
  round_trip :
      (a : Attempt) (predicted : ℕ)
      → IsSteady offset delay a
      → predicted < 2 ^ 64
      → send_and_recv a predicted
        ≡ some (
          (if stamp a predicted == server_clock offset delay a
              then 0
              else server_clock offset delay a),
          delay * 2,
        )
  unfolding send_and_recv
  round_trip a predicted s h =
      let written : stamp a predicted < 2 ^ 64 = ground (arith, s.in_range) in
      rw
        (
          s.at_once,
          s.answers (put_uint64 (stamp a predicted)),
          server_reply-put_uint64 (server_clock offset delay a) (stamp a predicted) written,
          reply_read (stamp a predicted)
              (if stamp a predicted == server_clock offset delay a
                then 0
                else server_clock offset delay a)
              (ground arith),
        )
        (ap
          (λ (t : ℕ). some (
            (if stamp a predicted == server_clock offset delay a
                then 0
                else server_clock offset delay a),
            t,
          ))
          (omega (arith, s.in_range)))

  measured_delta :
      (a : Attempt)
      → IsSteady offset delay a
      → sub_int64 (server_clock offset delay a) (add_int64 a.sent_at (div_int64 (delay * 2) 2))
        ≡ offset
  measured_delta a s = ground (arith, s.in_range)

  multiple : (count : ℕ) → count < 3 → count * (delay * 2) ≤ delay * 4
  multiple zero h = omega arith
  multiple (suc zero) h = omega arith
  multiple (suc (suc zero)) h = omega arith
  multiple (suc (suc (suc count))) h = absurd (omega arith)

  -- What `count` measurements leave.
  record HasMeasured (count : ℕ) (e : Estimate) : Type 0 where
    counted : e.count ≡ count
    first : count ≡ 0 → is_negative e.predicted_server_ns ≡ true
    stamped : e.predicted_server_ns < 2 ^ 64
    delta : 0 < count → e.last_delta ≡ offset
    rtt : 0 < count → e.last_rtt ≡ delay * 2
    deltas : e.sum_delta ≡ u64 (count * offset)
    rtts : e.sum_rtt ≡ count * (delay * 2)

  first_estimate-HasMeasured : HasMeasured 0 first_estimate
  first_estimate-HasMeasured = record {
    counted = refl;
    first = λ h. refl;
    stamped = omega arith;
    delta = λ h. absurd (omega arith);
    rtt = λ h. absurd (omega arith);
    deltas = omega arith;
    rtts = omega arith;
  }

  measure-HasMeasured :
      (count : ℕ) (a : Attempt) (e : Estimate)
      → count < 3
      → IsSteady offset delay a
      → HasMeasured count e
      → HasMeasured (count + 1) (measure a (server_clock offset delay a) (delay * 2) e)
  unfolding measure
  measure-HasMeasured count a e few s v = record {
    counted = ap (λ (n : ℕ). n + 1) v.counted;
    first = λ h. absurd (omega arith);
    stamped = omega arith;
    delta = λ h. measured_delta a s;
    rtt = λ h. refl;
    deltas = rw (measured_delta a s) (omega (arith, v.deltas, suc-mul count offset));
    rtts = omega (arith, v.rtts, suc-mul count (delay * 2), multiple count few);
  }

  latest_lem :
      (count : ℕ) (e : Estimate) → 0 < count → HasMeasured count e → latest e ≡ u64 (delay + offset)
  latest_lem count e some_measured v = ground (arith, v.delta some_measured, v.rtt some_measured)

  average_lem : (e : Estimate) → HasMeasured 3 e → average e ≡ u64 (delay + offset)
  unfolding average
  average_lem e v = ground (arith, v.counted, v.deltas, v.rtts)

  nonzero : (v : ℕ) → v ≢ 0 → (v == 0) ≡ false
  nonzero v h = ground (arith, h)

  -- The server found the stamp to be its own time.
  aligned :
      (i : ℕ) (a : Attempt) (e : Estimate)
      → IsSteady offset delay a
      → HasMeasured i e
      → (stamp a e.predicted_server_ns == server_clock offset delay a) ≡ true
      → (if i == 0 then 0 else latest e) ≡ u64 (delay + offset)
  aligned zero a e s v same =
      let first : stamp a e.predicted_server_ns ≡ a.sent_at = rw (v.first refl) refl in
      let met : a.sent_at ≡ server_clock offset delay a = (==_iff _ _).0 (rw first at same) in
      omega (arith, met, s.in_range)
  aligned (suc i) a e s v same =
      rw (nonzero (suc i) (λ h. absurd (omega (arith, h)))) (latest_lem (suc i) e (omega arith) v)

  sync_attempt_lem :
      (i : ℕ) (a : Attempt) (e : Estimate)
      → i < 3
      → IsSteady offset delay a
      → HasMeasured i e
      → (sync_attempt i a e ≡ returned (u64 (delay + offset)))
        ⊎ (sync_attempt i a e ≡ measured (measure a (server_clock offset delay a) (delay * 2) e))
  unfolding sync_attempt
  sync_attempt_lem i a e few s v =
      rw (round_trip a e.predicted_server_ns s v.stamped, sync_attempt)
        (elim (Bool-cases (stamp a e.predicted_server_ns == server_clock offset delay a)) [
          | inl same ↦ rw same (inl (ap returned (aligned i a e s v same)))
          | inr other ↦ rw (other, nonzero (server_clock offset delay a) s.running) (inr refl)
        ])

  sync_loop_lem :
      (attempts : ℕ → Attempt)
      → ((k : ℕ) → IsSteady offset delay (attempts k))
      → (left i : ℕ) (e : Estimate) → i + left ≡ 3
      → HasMeasured i e
      → sync_loop attempts left i e ≡ u64 (delay + offset)
  unfolding sync_loop
  sync_loop_lem attempts s zero i e h v =
      let last : i ≡ 3 = omega arith in average_lem e (rw last at v)
  sync_loop_lem attempts s (suc left) i e h v =
      elim (sync_attempt_lem i (attempts i) e (omega arith) (s i) v) [
        | inl done ↦ rw (sync_loop, done) refl
        | inr next ↦
            rw (sync_loop, next)
              (sync_loop_lem attempts s left (i + 1) _ (omega arith)
                (measure-HasMeasured i (attempts i) e (omega arith) (s i) v))
      ]

  -- With a server clock that is off by a constant under 2^61 nanoseconds either way and never
  -- reads 0, a network that takes the same time under 2^60 nanoseconds each way, every reply
  -- arriving while the client's clock fits an `int64`, and each time stamp read at the moment of
  -- its send, the result is the offset and half the round trip added, as `int64`, whichever of the
  -- attempts the server finds aligned, or none.
  pub sync_with_server_exact :
      (attempts : ℕ → Attempt)
      → ((k : ℕ) → IsSteady offset delay (attempts k))
      → sync_with_server (some attempts) ≡ u64 (delay + offset)
  unfolding sync_with_server
  sync_with_server_exact attempts s =
      sync_loop_lem attempts s 3 0 first_estimate refl first_estimate-HasMeasured

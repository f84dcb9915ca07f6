-- ===== src/Calibration.antt =====
-- pkg/magic/calibration.go: the server's answer to a time stamp, and the client's estimate of the
-- clocks' difference and half the round trip. An `int64` is its bit pattern, below `2 ^ 64`.
pub mod Exact
pub mod Listening
pub mod Answers
use quic_hop.Base.{
  ℕ, zero, suc, ◌+◌, ◌*◌, ◌^◌, ◌/◌, ◌-◌, List, Bool, true, false, not, Option, none, some, ltb, leb,
  ◌==◌, length, take, get_or, u64, if◌then◌else◌, ◌>>=◌,
}
use quic_hop.Algo.Codec.{copy}
use quic_hop.Clock.{millisecond, put_uint64}

abbrev pub add_int64 : ℕ → ℕ → ℕ
add_int64 a b = u64 (a + b)

abbrev pub sub_int64 : ℕ → ℕ → ℕ
sub_int64 a b = u64 (a + (2 ^ 64 - b))

abbrev pub is_negative : ℕ → Bool
is_negative a = not (ltb a (2 ^ 63))

-- The division of Go, which rounds towards 0, by a positive number.
abbrev pub div_int64 : ℕ → ℕ → ℕ
div_int64 a k = if is_negative a then sub_int64 0 (sub_int64 0 a / k) else a / k

-- `binary.BigEndian.Uint64`
unfoldable pub get_uint64 : List ℕ → ℕ
get_uint64 b =
    get_or b 0 0 * 2 ^ 56
    + get_or b 1 0 * 2 ^ 48
    + get_or b 2 0 * 2 ^ 40
    + get_or b 3 0 * 2 ^ 32
    + get_or b 4 0 * 2 ^ 24
    + get_or b 5 0 * 2 ^ 16
    + get_or b 6 0 * 2 ^ 8
    + get_or b 7 0

-- The reply to a datagram that arrives at `now`: 0 if it names that moment, else the moment.
unfoldable pub server_reply : ℕ → List ℕ → List ℕ
server_reply now content =
    let client_ts = if leb 8 (length content) then get_uint64 (take 8 content) else 2 ^ 64 - 1 in
    put_uint64 (if client_ts == now then 0 else now)

-- What one attempt meets: the readings of the clock for the time stamp, right before the send and
-- for the next prediction, and what the socket makes of a payload: the bytes read and the moment, or
-- none after an error of `Write` or `Read`.
pub record Attempt : Type 0 where
  pub now : ℕ
  pub sent_at : ℕ
  pub exchange : List ℕ → Option (List ℕ × ℕ)
  pub later : ℕ

-- The server's reply and the round-trip time.
unfoldable pub send_and_recv : Attempt → ℕ → Option (ℕ × ℕ)
send_and_recv a predicted =
    let payload = put_uint64 (if is_negative predicted then a.now else predicted) in
    a.exchange payload >>= λ answer.
    some (get_uint64 (copy payload answer.0), sub_int64 answer.1 a.sent_at)

pub record Estimate : Type 0 where
  pub predicted_server_ns : ℕ
  pub last_delta : ℕ
  pub last_rtt : ℕ
  pub sum_delta : ℕ
  pub sum_rtt : ℕ
  pub count : ℕ

abbrev pub first_estimate : Estimate
first_estimate = record {
  predicted_server_ns = 2 ^ 64 - 1;
  last_delta = 0;
  last_rtt = 0;
  sum_delta = 0;
  sum_rtt = 0;
  count = 0;
}

abbrev pub latest : Estimate → ℕ
latest e = add_int64 e.last_delta (div_int64 e.last_rtt 2)

-- A reply with the server's time.
unfoldable pub measure : Attempt → ℕ → ℕ → Estimate → Estimate
measure a srv rtt e =
    let delta = sub_int64 srv (add_int64 a.sent_at (div_int64 rtt 2)) in
    record {
      predicted_server_ns = add_int64 (add_int64 a.later delta) (div_int64 rtt 2);
      last_delta = delta;
      last_rtt = rtt;
      sum_delta = add_int64 e.sum_delta delta;
      sum_rtt = add_int64 e.sum_rtt rtt;
      count = e.count + 1;
    }

-- One attempt returns from the function, or goes on.
pub data Outcome : Type 0 where
  returned : ℕ → Outcome
  measured : Estimate → Outcome

unfoldable pub sync_attempt : ℕ → Attempt → Estimate → Outcome
unfolding send_and_recv measure
sync_attempt i a e = elim (send_and_recv a e.predicted_server_ns) [
  | none ↦ returned (if ltb 0 e.count then latest e else 10 * millisecond)
  | some (srv, rtt) ↦
      if srv == 0 then returned (if i == 0 then 0 else latest e) else measured (measure a srv rtt e)
]

-- After the last attempt.
unfoldable pub average : Estimate → ℕ
average e =
    if ltb 0 e.count
    then add_int64 (div_int64 e.sum_delta e.count) (div_int64 (div_int64 e.sum_rtt e.count) 2)
    else 10 * millisecond

unfoldable pub sync_loop : (ℕ → Attempt) → ℕ → ℕ → Estimate → ℕ
unfolding sync_attempt average
sync_loop attempts zero i e = average e
sync_loop attempts (suc left) i e = elim (sync_attempt i (attempts i) e) [
  | returned d ↦ d
  | measured e' ↦ sync_loop attempts left (i + 1) e'
]

-- `none` is the error of `net.DialUDP`.
unfoldable pub sync_with_server : Option (ℕ → Attempt) → ℕ
unfolding sync_loop
sync_with_server none = 0
sync_with_server (some attempts) = sync_loop attempts 3 0 first_estimate

-- ===== src/Tests/Calibration.antt =====
-- The calibration on a concrete network: the server's clock is 3 ms behind, each way takes 1 ms.
use quic_hop.Base.{ℕ, ◌+◌, ◌*◌, ◌^◌, ◌-◌, ◌≡◌, refl, some, arith, u64, inr}
use quic_hop.Clock.{millisecond}
use quic_hop.Calibration.{Attempt, server_reply, sync_with_server}
use quic_hop.Calibration.Exact.{IsSteady, sync_with_server_exact}

abbrev pub behind : ℕ
behind = 2 ^ 64 - 3 * millisecond

abbrev pub attempt : ℕ → Attempt
attempt i = record {
  now = 1700000000980000000;
  sent_at = 1700000000980000000;
  exchange = λ payload. some (server_reply 1700000000978000000 payload, 1700000000982000000);
  later = 1700000000982500000;
}

pub attempt-IsSteady : (i : ℕ) → IsSteady behind (1 * millisecond) (attempt i)
attempt-IsSteady i = record {
  at_once = refl;
  in_range = omega arith;
  running = λ h. absurd (omega (arith, h));
  answers = λ payload. refl;
}

sync_with_server_exact_example : sync_with_server (some attempt) ≡ u64 (1 * millisecond + behind)
sync_with_server_exact_example =
    sync_with_server_exact behind (1 * millisecond) (inr (omega arith, omega arith)) (omega arith)
      attempt attempt-IsSteady

-- ===== src/Config.antt =====
-- pkg/magic/config.go: the constants and the package variables that the flags of the two programs
-- override, as one record. Durations of the configuration are in milliseconds.
use Prim.Native.Nat.{ℕ, ◌+◌, ◌*◌, ◌/◌}
use Prim.Native.Char.{code}
use Prim.Native.String.{String}
use mathlib.Core.Bool.{Bool, true}
use mathlib.Core.List.{List, [], ◌∷◌}

abbrev pub seed_bits : ℕ
seed_bits = 16

abbrev pub seed_bytes : ℕ
seed_bytes = seed_bits / 8

abbrev pub payload_bits : ℕ
payload_bits = 56

abbrev pub payload_bytes : ℕ
payload_bytes = payload_bits / 8

abbrev pub encoded_bits : ℕ
encoded_bits = payload_bits * 2

abbrev pub encoded_bytes : ℕ
encoded_bytes = encoded_bits / 8

abbrev pub output_bytes : ℕ
output_bytes = seed_bytes + encoded_bytes

abbrev pub fixed_cid_len : ℕ
fixed_cid_len = 16

-- The bytes of an ASCII text.
abbrev pub codes : String → List ℕ
codes String.[] = []
codes (String.◌∷◌ c s) = code c ∷ codes s

abbrev pub shared_secret : List ℕ
shared_secret = codes "EXTREME_POLYMORPHIC_SECRET_2025"

pub record Config : Type 0 where
  pub slot_duration_ms : ℕ
  pub client_double_send_edge_threshold_ms : ℕ
  pub server_old_port_close_delay_ms : ℕ
  pub server_prebind_next_port_enabled : Bool
  pub cid_obfuscation_enabled : Bool

abbrev pub default_config : Config
default_config = record {
  slot_duration_ms = 1000;
  client_double_send_edge_threshold_ms = 50;
  server_old_port_close_delay_ms = 50;
  server_prebind_next_port_enabled = true;
  cid_obfuscation_enabled = true;
}

abbrev pub task_rounds : ℕ
task_rounds = 10

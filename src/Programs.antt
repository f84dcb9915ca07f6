-- ===== src/Programs.antt =====
-- server/main.go, client/main.go and pkg/magic/config.go: what the flags of the two programs make of
-- the configuration, and the texts and sizes that the programs derive from constants.
pub mod SyncTool
use quic_hop.Base.{ℕ, ◌*◌, List, ◌∷◌, ◌++◌, Bool, false, if◌then◌else◌, u64}
use quic_hop.Config.{Config, codes}
use quic_hop.Strconv.{decimal}
use quic_hop.Task.Server.{pattern_from}

-- The flags of the server, and those of the client that change the configuration.
pub record ServerFlags : Type 0 where
  pub slot : ℕ
  pub auto : Bool
  pub old : Bool
  pub pre : Bool
  pub cid : Bool

pub record ClientFlags : Type 0 where
  pub slot : ℕ
  pub auto : Bool
  pub dou : Bool
  pub cid : Bool

unfoldable pub server_config : ServerFlags → Config → Config
server_config flags config = record {
  slot_duration_ms = if flags.auto then config.slot_duration_ms else flags.slot;
  client_double_send_edge_threshold_ms = config.client_double_send_edge_threshold_ms;
  server_old_port_close_delay_ms = if flags.old then 0 else config.server_old_port_close_delay_ms;
  server_prebind_next_port_enabled =
      if flags.pre then false else config.server_prebind_next_port_enabled;
  cid_obfuscation_enabled = if flags.cid then false else config.cid_obfuscation_enabled;
}

unfoldable pub client_config : ClientFlags → Config → Config
client_config flags config = record {
  slot_duration_ms = if flags.auto then config.slot_duration_ms else flags.slot;
  client_double_send_edge_threshold_ms =
      if flags.dou then 0 else config.client_double_send_edge_threshold_ms;
  server_old_port_close_delay_ms = config.server_old_port_close_delay_ms;
  server_prebind_next_port_enabled = config.server_prebind_next_port_enabled;
  cid_obfuscation_enabled = if flags.cid then false else config.cid_obfuscation_enabled;
}

abbrev pub transfer_file_size_bytes : ℕ
transfer_file_size_bytes = 100 * 1024 * 1024

-- What the client uploads.
unfoldable pub test_data : List ℕ
test_data = pattern_from 0 transfer_file_size_bytes 0

-- `uint64(streamWinMB) * 1024 * 1024`, a receive window in bytes.
unfoldable pub window_bytes : ℕ → ℕ
window_bytes megabytes = u64 (u64 (megabytes * 1024) * 1024)

abbrev pub loopback_prefix : List ℕ
loopback_prefix = codes "192.168.2"

abbrev pub listen_addr : List ℕ
listen_addr = codes "192.168.1.3"

unfoldable pub loopback_ip : ℕ → List ℕ
loopback_ip last_octet = loopback_prefix ++ 46 ∷ decimal last_octet

unfoldable pub loopback_addr : ℕ → ℕ → List ℕ
loopback_addr last_octet port = loopback_prefix ++ 46 ∷ decimal last_octet ++ 58 ∷ decimal port

unfoldable pub loopback_addr2 : ℕ → List ℕ
loopback_addr2 port = listen_addr ++ 58 ∷ decimal port

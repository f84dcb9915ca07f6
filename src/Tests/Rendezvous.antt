-- ===== src/Tests/Rendezvous.antt =====
-- A calibrated client and a hopping server, on concrete inputs.
use quic_hop.Base.{◌+◌, ◌*◌, ◌≡◌, refl, none, some, arith, inr, true}
use quic_hop.Config.{default_config}
use quic_hop.Clock.{UdpAddr, millisecond, slot_of}
use quic_hop.Calibration.{sync_with_server}
use quic_hop.Conn.Write.{client_write}
use quic_hop.Conn.Write.Targets.{OneOf}
use quic_hop.Conn.Sockets.{hop, local_addr}
use quic_hop.Conn.Rendezvous.{duration_of, calibrated_packet_meets_server}
use quic_hop.Tests.Calibration.{behind, attempt, attempt-IsSteady}
use quic_hop.Tests.Sockets.{late, server, next_socket}

-- Sent in the next slot, 10 ms late on its way.
calibrated_packet_meets_server_example :
    (a : UdpAddr) × (local_addr (
        hop default_config
          (λ a. none)
          (late + 1000 * millisecond)
          (late + 1000 * millisecond)
          (hop default_config (λ a. some next_socket) late (late + 500) server))
      ≡ some a)
    × OneOf a (
        client_write default_config
          (duration_of (sync_with_server (some attempt)))
          (1700000001985 * millisecond)
          true)
calibrated_packet_meets_server_example =
    calibrated_packet_meets_server default_config behind (1 * millisecond) attempt
      (1700000001985 * millisecond) (1700000001993 * millisecond) (λ a. some next_socket)
      (λ a. none) late (late + 500) (late + 1000 * millisecond) (late + 1000 * millisecond) server
      next_socket (inr (omega arith, omega arith)) (omega arith) attempt-IsSteady (omega arith)
      (omega arith) (omega arith) (omega arith) (omega arith) refl refl (omega arith) (omega arith)
      (omega arith) (unfold slot_of in refl) (unfold slot_of in refl) (unfold slot_of in refl) refl
      refl

-- ===== src/Conn/Rendezvous.antt =====
-- The parts together: a calibrated client's packet meets a port that the server has open.
use quic_hop.Base.{
  ℕ, ◌+◌, ◌-◌, ◌^◌, ◌≤◌, ◌<◌, ◌≡◌, ap, Option, some, arith, true, u64, if◌then◌else◌,
}
use quic_hop.Base.Int.{ℤ, pos, negsuc}
use quic_hop.Config.{Config}
use quic_hop.Clock.{UdpAddr, unix_milli, slot_of, address_of_slot, get_address_by_time}
use quic_hop.Calibration.{Attempt, is_negative, sync_with_server}
use quic_hop.Calibration.Exact.{IsSmall, IsSteady, sync_with_server_exact}
use quic_hop.Conn.Write.{add_duration, client_write}
use quic_hop.Conn.Write.Targets.{OneOf, client_write_covers}
use quic_hop.Conn.Sockets.{Socket, Sockets, prebind_addr, hop, local_addr}
use quic_hop.Conn.Sockets.Hops.{hop_follows_slots}

-- A `time.Duration` by its bit pattern.
unfoldable pub duration_of : ℕ → ℤ
duration_of v = if is_negative v then negsuc (2 ^ 64 - v - 1) else pos v

-- The client's sum is the server's clock at the arrival, if that is one a clock can show.
add_duration-duration_of :
    (now delay offset : ℕ)
    → IsSmall offset
    → delay < 2 ^ 60
    → now < 2 ^ 63
    → u64 (now + delay + offset) < 2 ^ 63
    → add_duration now (duration_of (u64 (delay + offset))) ≡ u64 (now + delay + offset)
unfolding duration_of
add_duration-duration_of now delay offset small short reads fits = ground (arith, small)

same_slot :
    (s t u : ℕ) → slot_of s t ≡ slot_of s u → get_address_by_time s t ≡ get_address_by_time s u
unfolding get_address_by_time
same_slot s t u e = ap address_of_slot e

-- A client that calibrated over a steady network sends a packet at `now` by its clock; the packet
-- meets the server at `t` by the server's clock, at the predicted moment or later, but in whole
-- milliseconds by less than the threshold (both moments are cut to a millisecond before they are
-- compared), in the slot in which the server hopped at `t2`, after a hop at `t1` in the slot before.
-- Then the address of the server's socket at `t` is among those that the packet was sent to. The
-- conditions are those of the calibration (the server's clock is off by a constant under 2^61
-- nanoseconds either way, each way takes the same time under 2^60, each stamp is read at the moment
-- of its send), of the two hops (the next port is bound ahead, binding it succeeded, and the clock
-- is read twice within a millisecond and a slot, which has at least two milliseconds), a threshold
-- of at most a slot, and clocks within an `int64`; the packet's first send succeeds.
pub calibrated_packet_meets_server :
    (config : Config) (offset delay : ℕ) (attempts : ℕ → Attempt) (now t : ℕ)
    (listen listen' : UdpAddr → Option Socket) (t1 t1' t2 t2' : ℕ) (c : Sockets) (l : Socket)
    → IsSmall offset
    → delay < 2 ^ 60
    → ((k : ℕ) → IsSteady offset delay (attempts k))
    → now < 2 ^ 63
    → u64 (now + delay + offset) < 2 ^ 63
    → u64 (now + delay + offset) ≤ t
    → unix_milli t
      < unix_milli (u64 (now + delay + offset)) + config.client_double_send_edge_threshold_ms
    → config.client_double_send_edge_threshold_ms ≤ config.slot_duration_ms
    → c.is_server ≡ true
    → config.server_prebind_next_port_enabled ≡ true
    → 2 ≤ config.slot_duration_ms
    → unix_milli t1 ≤ unix_milli t1'
    → unix_milli t1' ≤ unix_milli t1 + 1
    → slot_of config.slot_duration_ms t1' ≡ slot_of config.slot_duration_ms t1
    → slot_of config.slot_duration_ms t2 ≡ slot_of config.slot_duration_ms t1 + 1
    → slot_of config.slot_duration_ms t ≡ slot_of config.slot_duration_ms t2
    → listen (prebind_addr config t1 t1') ≡ some l
    → l.bound ≡ prebind_addr config t1 t1'
    → let server = hop config listen' t2 t2' (hop config listen t1 t1' c) in
      (a : UdpAddr) × (local_addr server ≡ some a)
      × OneOf a (client_write config (duration_of (sync_with_server (some attempts))) now true)
calibrated_packet_meets_server config offset delay attempts now t listen listen' t1 t1' t2 t2' c l
      small short steady reads fits lo hi edge is_server on big first second one next at bound
      kept =
    let found = sync_with_server_exact offset delay small short attempts steady in
    let arrival = add_duration-duration_of now delay offset small short reads fits in
    let hops =
      hop_follows_slots config listen listen' t1 t1' t2 t2' c l is_server on big first second one
        next bound kept in
    let covers =
      client_write_covers config (duration_of (u64 (delay + offset))) now t (omega arith) edge
        (rw arrival lo) (rw arrival hi) in
    (
      get_address_by_time config.slot_duration_ms t2,
      hops.1,
      rw found (rw (← same_slot config.slot_duration_ms t t2 at) covers),
    )

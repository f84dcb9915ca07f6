-- ===== src/Conn/Sockets/Hops.antt =====
-- The server's current socket follows the slots.
use quic_hop.Base.{ℕ, ◌+◌, ◌≤◌, ◌≡◌, sym, ap, ◌∙◌, Option, some, arith, true}
use quic_hop.Config.{Config}
use quic_hop.Clock.{UdpAddr, unix_milli, slot_of, address_of_slot, get_address_by_time}
use quic_hop.Clock.Slots.{prebound_slot}
use quic_hop.Conn.Sockets.{
  Socket, Sockets, prebind_addr, prebind, promote, retire, hop, local_addr, write_socket,
}

-- A hop leaves in `nextConn` exactly what it bound, and promotes what was there.
hop_promotes :
    (config : Config) (listen : UdpAddr → Option Socket) (now now' : ℕ) (c : Sockets) (l : Socket)
    → c.next_conn ≡ some l
    → (hop config listen now now' c).current_conn ≡ some l
unfolding hop retire promote prebind
hop_promotes config listen now now' c l e = ground (arith, e)

hop_prebinds :
    (config : Config) (listen : UdpAddr → Option Socket) (now now' : ℕ) (c : Sockets) (l : Socket)
    → config.server_prebind_next_port_enabled ≡ true
    → listen (prebind_addr config now now') ≡ some l
    → (hop config listen now now' c).next_conn ≡ some l
unfolding hop retire promote prebind
hop_prebinds config listen now now' c l on e = ground arith

hop-is_server :
    (config : Config) (listen : UdpAddr → Option Socket) (now now' : ℕ) (c : Sockets)
    → (hop config listen now now' c).is_server ≡ c.is_server
unfolding hop retire promote prebind
hop-is_server config listen now now' c = ground arith

current_used :
    (c : Sockets) (l : Socket)
    → c.is_server ≡ true
    → c.current_conn ≡ some l
    → (write_socket c ≡ some l) × (local_addr c ≡ some l.bound)
unfolding write_socket local_addr
current_used c l server e = ground (arith, e)

-- Two hops in neighbouring slots: the port that the first one bound ahead is, after the second, the
-- current one, and it is the address of the second one's slot, which `WriteTo` sends from and
-- `LocalAddr` reports. The next port is bound ahead, binding it succeeded at the first hop, the clock
-- is read twice within a millisecond and a slot, and a slot has at least two milliseconds.
pub hop_follows_slots :
    (config : Config) (listen listen' : UdpAddr → Option Socket) (t1 t1' t2 t2' : ℕ) (c : Sockets)
    (l : Socket)
    → c.is_server ≡ true
    → config.server_prebind_next_port_enabled ≡ true
    → 2 ≤ config.slot_duration_ms
    → unix_milli t1 ≤ unix_milli t1'
    → unix_milli t1' ≤ unix_milli t1 + 1
    → slot_of config.slot_duration_ms t1' ≡ slot_of config.slot_duration_ms t1
    → slot_of config.slot_duration_ms t2 ≡ slot_of config.slot_duration_ms t1 + 1
    → listen (prebind_addr config t1 t1') ≡ some l
    → l.bound ≡ prebind_addr config t1 t1'
    → let after = hop config listen' t2 t2' (hop config listen t1 t1' c) in
      (write_socket after ≡ some l)
      × (local_addr after ≡ some (get_address_by_time config.slot_duration_ms t2))
hop_follows_slots config listen listen' t1 t1' t2 t2' c l server on big lo hi same next bound at =
    let current =
      hop_promotes config listen' t2 t2' (hop config listen t1 t1' c) l
        (hop_prebinds config listen t1 t1' c l on bound) in
    let right : l.bound ≡ get_address_by_time config.slot_duration_ms t2 =
      at
      ∙ unfold prebind_addr get_address_by_time in
        ap address_of_slot
          (prebound_slot config.slot_duration_ms t1 t1' big lo hi same ∙ sym next) in
    let serves =
      hop-is_server config listen' t2 t2' (hop config listen t1 t1' c)
      ∙ hop-is_server config listen t1 t1' c
      ∙ server in
    let uses =
      current_used (hop config listen' t2 t2' (hop config listen t1 t1' c)) l serves current in
    (uses.0, uses.1 ∙ ap (λ (a : UdpAddr). some a) right)

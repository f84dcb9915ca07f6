-- ===== src/Tests/Sockets.antt =====
-- Slots, hops, closing and the addresses of a client's packet on concrete inputs.
use quic_hop.Base.{
  ℕ, ◌+◌, ◌*◌, ◌<◌, ◌≡◌, ◌≤◌, refl, sym, ap, ◌∙◌, [], ◌∷◌, none, some, arith, true, false, inl, inr,
}
use quic_hop.Config.{default_config}
use quic_hop.Clock.{UdpAddr, slot_of, millisecond, get_address_by_time, get_next_hop_delay}
use quic_hop.Clock.Slots.{get_next_hop_delay_lem}
use quic_hop.Conn.Sockets.{
  Socket, Sockets, prebind_addr, prebind, hop, retire, promote, local_addr, write_socket, close,
}
use quic_hop.Conn.Sockets.Hops.{hop_follows_slots}
use quic_hop.Conn.Sockets.Closing.{In, IsTracked, IsFresh}
use quic_hop.Conn.Sockets.Unclosed.{close_during_hop}

-- 1700000000.980 seconds after the epoch, near the end of a slot.
abbrev pub late : ℕ
late = 1700000000980 * millisecond

get_next_hop_delay_lem_example :
    (0 < get_next_hop_delay 1000 late)
    × (get_next_hop_delay 1000 late ≤ 1000 * millisecond)
    × (slot_of 1000 (late + get_next_hop_delay 1000 late) ≡ slot_of 1000 late + 1)
get_next_hop_delay_lem_example = get_next_hop_delay_lem 1000 late (omega arith)

abbrev pub serving_socket : Socket
serving_socket = record { id = 1; bound = get_address_by_time 1000 late }

abbrev pub next_addr : UdpAddr
next_addr = prebind_addr default_config late (late + 500)

abbrev pub next_socket : Socket
next_socket = record { id = 2; bound = next_addr }

abbrev third_socket : Socket
third_socket = record { id = 3; bound = next_addr }

abbrev pub server : Sockets
server = record {
  is_server = true;
  current_conn = some serving_socket;
  next_conn = none;
  local_conn = none;
  pumped = serving_socket ∷ [];
  closing = [];
  cancelled = false;
}

hop_follows_slots_example :
    (write_socket (
        hop default_config
          (λ a. none)
          (late + 1000 * millisecond)
          (late + 1000 * millisecond)
          (hop default_config (λ a. some next_socket) late (late + 500) server))
      ≡ some next_socket)
    × (local_addr (
          hop default_config
            (λ a. none)
            (late + 1000 * millisecond)
            (late + 1000 * millisecond)
            (hop default_config (λ a. some next_socket) late (late + 500) server))
        ≡ some (get_address_by_time 1000 (late + 1000 * millisecond)))
hop_follows_slots_example =
    hop_follows_slots default_config (λ a. some next_socket) (λ a. none) late (late + 500)
      (late + 1000 * millisecond) (late + 1000 * millisecond) server next_socket refl refl
      (omega arith) (omega arith) (omega arith) (unfold slot_of in refl) (unfold slot_of in refl)
      refl refl

only : (s : Socket) → In s (serving_socket ∷ []) → s ≡ serving_socket
only s (inl e) = e
only s (inr h) = absurd h

server-IsTracked : IsTracked server
server-IsTracked = record {
  server = refl;
  tracked = λ s h. inl (ap (λ (x : Socket). some x) (sym (only s h)));
  current_pumped = λ s e. inl (cc e);
  next_pumped = λ s e. absurd (cc e);
  apart = λ s t h k e. only s h ∙ sym (only t k);
}

fresh : IsFresh (some next_socket) server
fresh s h e = absurd (omega (arith, ap (λ (x : Socket). x.id) (only s h)))

close_during_hop_example :
    let closed = close (promote server) in
    let after =
      retire server.current_conn
        (promote server).current_conn
        (prebind default_config (some next_socket) closed.1) in
    (after.cancelled ≡ true)
    × In next_socket after.pumped
    × (¬ In next_socket closed.0)
    × (¬ In next_socket after.closing)
close_during_hop_example =
    close_during_hop server next_socket server-IsTracked fresh default_config refl refl
      (λ s h. absurd h)

-- ===== src/Tests/Lifecycle.antt =====
-- A server whose goroutines interleave, on concrete inputs.
use quic_hop.Base.{
  ℕ, ◌+◌, ◌*◌, ◌≡◌, ◌≤◌, refl, [], ◌∷◌, ◌++◌, Option, none, some, arith, true, false, ◌==◌,
  if◌then◌else◌, ap, sym, ◌∙◌,
}
use quic_hop.Config.{default_config}
use quic_hop.Clock.{
  UdpAddr, millisecond, get_address_by_time, address_of_slot, slot_of, slot_sum, get_next_hop_delay,
}
use quic_hop.Algo.Fnv.{fnv_write}
use quic_hop.Conn.Sockets.{
  Socket, Sockets, prebind_addr, prebind, promote, retire, close, new_server_conn, write_socket,
  replaced,
}
use quic_hop.Conn.Sockets.Lifecycle.{
  World, waiting, Steps, here, later, turn, listen, store, turned, timer, times, places, held,
  fresh_server,
}
use quic_hop.Conn.Sockets.Lifecycle.Shutdown.{
  AreApart, drained, sockets_accounted, current_stays_open, shutdown_closes_all,
}

abbrev moment : ℕ
moment = 1700000000980 * millisecond

abbrev first : Socket
first = record { id = 1; bound = get_address_by_time 1000 moment }

abbrev second : Socket
second = record { id = 2; bound = prebind_addr default_config moment moment }

abbrev third : Socket
third = record { id = 3; bound = get_address_by_time 1000 (moment + 2000 * millisecond) }

-- The first port of the server, and its second one for any other address.
abbrev bind : UdpAddr → Option Socket
bind a = if a.port == 29372 then some first else some second

first_bound : bind (get_address_by_time 1000 moment) ≡ some first
unfolding get_address_by_time address_of_slot fnv_write slot_of slot_sum
first_bound = refl

second_bound : bind (prebind_addr default_config moment moment) ≡ some second
unfolding prebind_addr get_address_by_time address_of_slot fnv_write slot_of slot_sum
    get_next_hop_delay
second_bound = refl

ports-AreApart : AreApart default_config bind moment moment
ports-AreApart l next at there same =
    let one : l ≡ first = cc (sym first_bound ∙ at) in
    let two : next ≡ second = cc (sym second_bound ∙ there) in
    absurd (omega (arith, ap (λ (x : Socket). x.id) one, ap (λ (x : Socket). x.id) two, same))

abbrev server : Sockets
server = record {
  is_server = true;
  current_conn = some first;
  next_conn = some second;
  local_conn = none;
  pumped = second ∷ first ∷ [];
  closing = [];
  cancelled = false;
}

server_made : new_server_conn default_config bind moment moment ≡ some server
unfolding new_server_conn prebind prebind_addr get_address_by_time address_of_slot fnv_write slot_of
    slot_sum get_next_hop_delay
server_made = refl

-- A hop, and the delayed close of the first port.
abbrev hopped : World
hopped = record {
  conn = record {
    is_server = true;
    current_conn = some second;
    next_conn = some third;
    local_conn = none;
    pumped = third ∷ second ∷ first ∷ [];
    closing = [];
    cancelled = false;
  };
  phase = waiting;
  opened = third ∷ first ∷ second ∷ [];
  closed = first ∷ [];
}

hopped_reached : Steps default_config (fresh_server server) hopped
unfolding promote prebind retire replaced fresh_server
hopped_reached =
    later
      (later
        (later (later (later here (turn refl)) (listen _ _ third refl refl refl))
          (store _ _ third refl refl))
        (turned _ _ refl))
      (timer [] [] first refl)

sockets_accounted_example :
    (times 3 hopped.opened ≤ 1)
    × (times 3 hopped.opened ≤ times 3 (places hopped))
    × (hopped.conn.cancelled ≡ false → times 3 hopped.opened ≡ times 3 (places hopped))
sockets_accounted_example =
    sockets_accounted default_config bind moment moment server hopped ports-AreApart server_made
      hopped_reached 3

current_stays_open_example :
    (times 2 hopped.closed ≡ 0)
    × (times 2 hopped.conn.closing ≡ 0)
    × (times 2 (held hopped.phase) ≡ 0)
current_stays_open_example =
    current_stays_open default_config bind moment moment server hopped second ports-AreApart
      server_made hopped_reached refl (unfold write_socket in refl)

abbrev after_close : World
after_close = record hopped {
  conn = (close hopped.conn).1;
  closed = (close hopped.conn).0 ++ hopped.closed;
}

shutdown_closes_all_example :
    (times 2 after_close.closed ≡ times 2 hopped.opened) × (after_close.opened ≡ hopped.opened)
shutdown_closes_all_example =
    shutdown_closes_all default_config bind moment moment server hopped after_close ports-AreApart
      server_made hopped_reached refl refl drained (unfold close in refl) 2

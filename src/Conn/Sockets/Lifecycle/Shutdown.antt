-- ===== src/Conn/Sockets/Lifecycle/Shutdown.antt =====
-- What holds of a server's sockets in every interleaving of its goroutines.
use quic_hop.Base.{
  ℕ, ◌+◌, ◌≤◌, ◌≡◌, ◌≢◌, refl, ap, List, [], ◌∷◌, ◌++◌, Option, none, some, arith, true, false,
  Option-cases, Bool-cases, inl, inr,
}
use quic_hop.Config.{Config}
use quic_hop.Clock.{UdpAddr, get_address_by_time}
use quic_hop.Conn.Sockets.{
  Socket, Sockets, prebind_addr, prebind, close, if_some, new_server_conn, write_socket,
}
use quic_hop.Conn.Sockets.Lifecycle.{World, times, Steps, held, places, fresh_server, waiting}
use quic_hop.Conn.Sockets.Lifecycle.Places.{times-append, times-places, prebind_nothing}
use quic_hop.Conn.Sockets.Lifecycle.Accounts.{IsAccounted, Steps-IsAccounted}

-- Delayed closes that expire, and nothing else.
pub data Drains (w : World) : World → Type 0 where
  drained : Drains w w
  expires :
      {u : World}
      → Drains w u
      → (before after : List Socket) (l : Socket) → u.conn.closing ≡ before ++ l ∷ after
      → Drains w
          (record u { conn = record u.conn { closing = before ++ after }; closed = l ∷ u.closed })

module _ (config : Config) (bind : UdpAddr → Option Socket) (now now' : ℕ) where
  -- The two sockets that a new server binds are different ones.
  abbrev pub AreApart : Type 0
  AreApart =
      (l next : Socket)
      → bind (get_address_by_time config.slot_duration_ms now) ≡ some l
      → bind (prebind_addr config now now') ≡ some next
      → l.id ≢ next.id

  abbrev single : Socket → Sockets
  single l = record {
    is_server = true;
    current_conn = some l;
    next_conn = none;
    local_conn = none;
    pumped = l ∷ [];
    closing = [];
    cancelled = false;
  }

  new_server_conn_lem :
      (c : Sockets)
      → new_server_conn config bind now now' ≡ some c
      → (l : Socket) × (bind (get_address_by_time config.slot_duration_ms now) ≡ some l)
        × (prebind config (bind (prebind_addr config now now')) (single l) ≡ c)
  unfolding new_server_conn
  new_server_conn_lem c made =
      elim (Option-cases (bind (get_address_by_time config.slot_duration_ms now))) [
        | inl failed ↦ absurd (cc (rw (new_server_conn, failed) at made))
        | inr (l, bound) ↦ (l, bound, cc (rw (new_server_conn, bound) at made))
      ]

  single-IsAccounted : (l : Socket) → IsAccounted (fresh_server (single l))
  unfolding fresh_server
  single-IsAccounted l = record {
    server = refl;
    alone = refl;
    vacant = tt;
    once = λ i. ground arith;
    covered = λ i. ground arith;
    exact = λ open_yet i. ground arith;
  }

  prebound-IsAccounted :
      (l : Socket) (o : Option Socket)
      → ((next : Socket) → o ≡ some next → l.id ≢ next.id)
      → IsAccounted (fresh_server (prebind config o (single l)))
  unfolding fresh_server prebind
  prebound-IsAccounted l none apart = rw (prebind_nothing config (single l)) (single-IsAccounted l)
  prebound-IsAccounted l (some next) apart =
      elim (Bool-cases config.server_prebind_next_port_enabled) [
        | inl on ↦ rw on (record {
          server = refl;
          alone = refl;
          vacant = tt;
          once = λ i. ground (arith, apart next refl);
          covered = λ i. ground (arith);
          exact = λ open_yet i. ground (arith);
        })
        | inr off ↦ rw off (single-IsAccounted l)
      ]

  reached-IsAccounted :
      (c : Sockets) (w : World)
      → AreApart
      → new_server_conn config bind now now' ≡ some c
      → Steps config (fresh_server c) w
      → IsAccounted w
  reached-IsAccounted c w apart made steps =
      let made_of = new_server_conn_lem c made in
      let start : IsAccounted (fresh_server c) = rw (← made_of.2) (
        prebound-IsAccounted made_of.0 (bind (prebind_addr config now now'))
          (λ next e. apart made_of.0 next made_of.1 e)) in
      Steps-IsAccounted config (fresh_server c) w start steps

  -- In every interleaving of the hopping loop, of calls of `Close` and of the delayed closes, each
  -- socket that a new server opens is the current or the prebound one, or held by the hop that
  -- runs, or due to be closed, or closed; until `Close` is called it is exactly one of these. The
  -- two sockets bound at the start are different ones.
  pub sockets_accounted :
      (c : Sockets) (w : World)
      → AreApart
      → new_server_conn config bind now now' ≡ some c
      → Steps config (fresh_server c) w
      → (i : ℕ)
      → (times i w.opened ≤ 1)
        × (times i w.opened ≤ times i (places w))
        × (w.conn.cancelled ≡ false → times i w.opened ≡ times i (places w))
  sockets_accounted c w apart made steps i =
      let v = reached-IsAccounted c w apart made steps in
      (v.once i, v.covered i, λ open_yet. v.exact open_yet i)

  times-if_some : (o : Option Socket) (s : Socket) → o ≡ some s → times s.id (if_some o) ≡ 1
  times-if_some none s e = absurd (cc)
  times-if_some (some l) s e = ground (arith, e)

  -- Until `Close` is called, no interleaving closes the socket that the server sends through, and
  -- none is about to. The two sockets bound at the start are different ones.
  pub current_stays_open :
      (c : Sockets) (w : World) (s : Socket)
      → AreApart
      → new_server_conn config bind now now' ≡ some c
      → Steps config (fresh_server c) w
      → w.conn.cancelled ≡ false
      → write_socket w.conn ≡ some s
      → (times s.id w.closed ≡ 0)
        × (times s.id w.conn.closing ≡ 0)
        × (times s.id (held w.phase) ≡ 0)
  unfolding write_socket
  current_stays_open c w s apart made steps open_yet current =
      let v = reached-IsAccounted c w apart made steps in
      let here_once : times s.id (if_some w.conn.current_conn) ≡ 1 =
        times-if_some w.conn.current_conn s (rw (v.server) at current) in
      let exact = v.exact open_yet s.id in
      (
        omega (arith, exact, v.once s.id, times-places s.id w, here_once),
        omega (arith, exact, v.once s.id, times-places s.id w, here_once),
        omega (arith, exact, v.once s.id, times-places s.id w, here_once),
      )

  close_all_exact :
      (c : Sockets) (w : World)
      → AreApart
      → new_server_conn config bind now now' ≡ some c
      → Steps config (fresh_server c) w
      → w.conn.cancelled ≡ false
      → w.phase ≡ waiting
      → (i : ℕ) → times i w.conn.closing + times i ((close w.conn).0 ++ w.closed) ≡ times i w.opened
  unfolding close
  close_all_exact c w apart made steps open_yet idle i =
      let v = reached-IsAccounted c w apart made steps in
      rw (v.server, v.alone)
        (omega (
          arith,
          v.exact open_yet i,
          times-places i w,
          ap (λ p. times i (held p)) idle,
          times-append i (if_some w.conn.current_conn ++ if_some w.conn.next_conn ++ []) w.closed,
          times-append i (if_some w.conn.current_conn ++ if_some w.conn.next_conn) [],
          times-append i (if_some w.conn.current_conn) (if_some w.conn.next_conn),
        ))

  drained_exact :
      (w u : World)
      → Drains w u
      → (i : ℕ)
      → (u.opened ≡ w.opened)
        × (times i u.conn.closing + times i u.closed ≡ times i w.conn.closing + times i w.closed)
  drained_exact w u drained i = (refl, refl)
  drained_exact w u (expires {u = v} earlier before after l e) i =
      let so_far = drained_exact w v earlier i in
      (
        so_far.0,
        omega (
          arith,
          so_far.1,
          ap (times i) e,
          times-append i before after,
          times-append i before (l ∷ after),
        ),
      )

  -- The first `Close` of a server, in any interleaving, while its hopping loop waits: when the
  -- delayed closes that were under way are done too, and nothing else has happened, every socket
  -- that the server ever opened is closed, exactly as often as it was opened. The two sockets
  -- bound at the start are different ones.
  pub shutdown_closes_all :
      (c : Sockets) (w u : World)
      → AreApart
      → new_server_conn config bind now now' ≡ some c
      → Steps config (fresh_server c) w
      → w.conn.cancelled ≡ false
      → w.phase ≡ waiting
      → Drains (record w { conn = (close w.conn).1; closed = (close w.conn).0 ++ w.closed }) u
      → u.conn.closing ≡ []
      → (i : ℕ) → (times i u.closed ≡ times i w.opened) × (u.opened ≡ w.opened)
  unfolding close
  shutdown_closes_all c w u apart made steps open_yet idle drains empty i =
      let after : World = record w {
        conn = (close w.conn).1;
        closed = (close w.conn).0 ++ w.closed;
      } in
      let d = drained_exact after u drains i in
      (
        omega
            (arith, d.1, ap (times i) empty, close_all_exact c w apart made steps open_yet idle i),
        d.0,
      )

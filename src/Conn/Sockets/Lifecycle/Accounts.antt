-- ===== src/Conn/Sockets/Lifecycle/Accounts.antt =====
-- Every socket that a server opened is in one place.
use quic_hop.Base.{
  ℕ, ◌≤◌, ◌≡◌, refl, sym, ap, ◌∙◌, List, ◌∷◌, ◌++◌, Option, none, some, arith, true, false,
}
use quic_hop.Config.{Config}
use quic_hop.Conn.Sockets.{Socket, prebind, promote, retire, close, if_some}
use quic_hop.Conn.Sockets.Lifecycle.{
  Phase, World, times, Step, Steps, here, later, due_of, held, places, waiting, promoted, listened,
  rebound, stopped, turn, listen, unbound, store, turned, close_all, timer, stop,
}
use quic_hop.Conn.Sockets.Lifecycle.Places.{
  times-append, times-places, promote_places, promote_rest, prebind_next, prebind_nothing,
  retire_due,
}

-- Inside a hop no socket is prebound.
abbrev pub IsVacant : Phase → Option Socket → Type 0
IsVacant waiting next = Unit {0}
IsVacant (promoted prev now) next = next ≡ none
IsVacant (listened prev now l) next = next ≡ none
IsVacant (rebound prev now) next = Unit {0}
IsVacant stopped next = Unit {0}

pub record IsAccounted (w : World) : Type 0 where
  pub server : w.conn.is_server ≡ true
  pub alone : w.conn.local_conn ≡ none
  pub vacant : IsVacant w.phase w.conn.next_conn
  pub once : (i : ℕ) → times i w.opened ≤ 1
  pub covered : (i : ℕ) → times i w.opened ≤ times i (places w)
  pub exact : w.conn.cancelled ≡ false → (i : ℕ) → times i w.opened ≡ times i (places w)

-- A step that opens and loses no socket, by what it does to the places.
moved :
    (w u : World)
    → IsAccounted w
    → u.conn.is_server ≡ w.conn.is_server
    → u.conn.local_conn ≡ w.conn.local_conn
    → IsVacant u.phase u.conn.next_conn
    → u.opened ≡ w.opened
    → (u.conn.cancelled ≡ false → w.conn.cancelled ≡ false)
    → ((i : ℕ) → times i (places u) ≡ times i (places w))
    → IsAccounted u
moved w u v server alone vacant same earlier keeps = record {
  server = server ∙ v.server;
  alone = alone ∙ v.alone;
  vacant = vacant;
  once = λ i. rw same (v.once i);
  covered = λ i. rw (same, keeps i) (v.covered i);
  exact = λ open_yet i. rw (same, keeps i) (v.exact (earlier open_yet) i);
}

module _ (config : Config) (w : World) (v : IsAccounted w) where
  turn-IsAccounted :
      w.phase ≡ waiting
      → IsAccounted (record w {
        conn = promote w.conn;
        phase = promoted w.conn.current_conn (promote w.conn).current_conn;
      })
  turn-IsAccounted e =
      let u : World = record w {
        conn = promote w.conn;
        phase = promoted w.conn.current_conn (promote w.conn).current_conn;
      } in
      let rest = promote_rest w.conn in
      let none_held : (i : ℕ) → times i (held w.phase) ≡ 0 = λ i. ap (λ p. times i (held p)) e in
      let same_due : (i : ℕ) → times i (promote w.conn).closing ≡ times i w.conn.closing =
        λ i. ap (times i) rest.2 in
      record {
        server = rest.0 ∙ v.server;
        alone = rest.1 ∙ v.alone;
        vacant = rest.4;
        once = v.once;
        covered = λ i. omega (
          arith,
          times-places i w,
          times-places i u,
          v.covered i,
          v.once i,
          none_held i,
          same_due i,
          (promote_places w.conn i).0,
        );
        exact = λ open_yet i. omega (
          arith,
          times-places i w,
          times-places i u,
          v.exact (sym rest.3 ∙ open_yet) i,
          v.once i,
          none_held i,
          same_due i,
          (promote_places w.conn i).1,
        );
      }

  listen-IsAccounted :
      (prev now : Option Socket) (l : Socket)
      → w.phase ≡ promoted prev now
      → times l.id w.opened ≡ 0
      → IsAccounted (record w { phase = listened prev now l; opened = l ∷ w.opened })
  listen-IsAccounted prev now l e fresh =
      let u : World = record w { phase = listened prev now l; opened = l ∷ w.opened } in
      let same_held : (i : ℕ) → times i (held w.phase) ≡ times i (due_of prev now) =
        λ i. ap (λ p. times i (held p)) e in
      record {
        server = v.server;
        alone = v.alone;
        vacant = vacant_after (rw e at v.vacant);
        once = λ i. ground (arith, v.once i, fresh);
        covered = λ i. omega (arith, times-places i w, times-places i u, v.covered i, same_held i);
        exact = λ open_yet i.
            omega (arith, times-places i w, times-places i u, v.exact open_yet i, same_held i);
      }
    where
      vacant_after : IsVacant (promoted prev now) w.conn.next_conn → w.conn.next_conn ≡ none
      vacant_after h = h

  unbound-IsAccounted :
      (prev now : Option Socket)
      → w.phase ≡ promoted prev now
      → IsAccounted (record w { conn = prebind config none w.conn; phase = rebound prev now })
  unbound-IsAccounted prev now e = rw (prebind_nothing config w.conn) (
      moved w (record w { phase = rebound prev now }) v refl refl tt refl (λ h. h)
        (λ i. omega (
          arith,
          times-places i w,
          times-places i (record w { phase = rebound prev now }),
          ap (λ p. times i (held p)) e,
        )))

  store-IsAccounted :
      (prev now : Option Socket) (l : Socket)
      → w.phase ≡ listened prev now l
      → config.server_prebind_next_port_enabled ≡ true
      → IsAccounted (record w { conn = prebind config (some l) w.conn; phase = rebound prev now })
  store-IsAccounted prev now l e on = rw (prebind_next config w.conn l on) (
      let u : World = record w {
        conn = record w.conn { next_conn = some l; pumped = l ∷ w.conn.pumped };
        phase = rebound prev now;
      } in
      moved w u v refl refl tt refl (λ h. h)
        (λ i. omega (
          arith,
          times-places i w,
          times-places i u,
          ap (λ p. times i (held p)) e,
          ap (λ o. times i (if_some o)) (vacant_before (rw e at v.vacant)),
        )))
    where
      vacant_before : IsVacant (listened prev now l) w.conn.next_conn → w.conn.next_conn ≡ none
      vacant_before h = h

  turned-IsAccounted :
      (prev now : Option Socket)
      → w.phase ≡ rebound prev now
      → IsAccounted (record w { conn = retire prev now w.conn; phase = waiting })
  turned-IsAccounted prev now e = rw (retire_due prev now w.conn) (
      let u : World = record w {
        conn = record w.conn { closing = due_of prev now ++ w.conn.closing };
        phase = waiting;
      } in
      moved w u v refl refl tt refl (λ h. h)
        (λ i. omega (
          arith,
          times-places i w,
          times-places i u,
          ap (λ p. times i (held p)) e,
          times-append i (due_of prev now) w.conn.closing,
        )))

  timer-IsAccounted :
      (before after : List Socket) (l : Socket)
      → w.conn.closing ≡ before ++ l ∷ after
      → IsAccounted
          (record w { conn = record w.conn { closing = before ++ after }; closed = l ∷ w.closed })
  timer-IsAccounted before after l e =
      let u : World = record w {
        conn = record w.conn { closing = before ++ after };
        closed = l ∷ w.closed;
      } in
      moved w u v refl refl v.vacant refl (λ h. h)
        (λ i. omega (
          arith,
          times-places i w,
          times-places i u,
          ap (times i) e,
          times-append i before after,
          times-append i before (l ∷ after),
        ))

  stop-IsAccounted : w.phase ≡ waiting → IsAccounted (record w { phase = stopped })
  stop-IsAccounted e =
      moved w (record w { phase = stopped }) v refl refl tt refl (λ h. h)
        (λ i. omega (
          arith,
          times-places i w,
          times-places i (record w { phase = stopped }),
          ap (λ p. times i (held p)) e,
        ))

  close_all-IsAccounted :
      IsAccounted (record w { conn = (close w.conn).1; closed = (close w.conn).0 ++ w.closed })
  unfolding close
  close_all-IsAccounted =
      let u : World = record w { conn = (close w.conn).1; closed = (close w.conn).0 ++ w.closed } in
      record {
        server = v.server;
        alone = v.alone;
        vacant = v.vacant;
        once = v.once;
        covered = λ i. omega (
          arith,
          times-places i w,
          times-places i u,
          v.covered i,
          times-append i (close w.conn).0 w.closed,
        );
        exact = λ open_yet i. absurd (cc);
      }

step-IsAccounted : (config : Config) (w u : World) → IsAccounted w → Step config w u → IsAccounted u
step-IsAccounted config w u v (turn e) = turn-IsAccounted config w v e
step-IsAccounted config w u v (listen prev now l e on fresh) =
    listen-IsAccounted config w v prev now l e fresh
step-IsAccounted config w u v (unbound prev now e) = unbound-IsAccounted config w v prev now e
step-IsAccounted config w u v (store prev now l e on) = store-IsAccounted config w v prev now l e on
step-IsAccounted config w u v (turned prev now e) = turned-IsAccounted config w v prev now e
step-IsAccounted config w u v close_all = close_all-IsAccounted config w v
step-IsAccounted config w u v (timer before after l e) =
    timer-IsAccounted config w v before after l e
step-IsAccounted config w u v (stop e cancelled) = stop-IsAccounted config w v e

pub Steps-IsAccounted :
    (config : Config) (w u : World) → IsAccounted w → Steps config w u → IsAccounted u
Steps-IsAccounted config w u v here = v
Steps-IsAccounted config w u v (later {u = next} more step) =
    step-IsAccounted config next u (Steps-IsAccounted config w next v more) step

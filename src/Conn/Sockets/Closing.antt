-- ===== src/Conn/Sockets/Closing.antt =====
-- No socket is lost in a hop: whatever has a pump is in use or about to be closed.
use quic_hop.Base.{
  ℕ, ◌≡◌, ◌⊎◌, inl, inr, ◌≢◌, List, [], ◌∷◌, Option, none, some, arith, true, ◌==◌, Option-cases,
  Bool-cases,
}
use quic_hop.Config.{Config}
use quic_hop.Clock.{UdpAddr}
use quic_hop.Conn.Sockets.{Socket, Sockets, prebind_addr, prebind, promote, replaced, retire, hop}

abbrev pub In : Socket → List Socket → Type 0
In s [] = ⊥
In s (t ∷ ts) = (s ≡ t) ⊎ In s ts

-- The sockets of a server: every pumped one is current, prebound or about to be closed; those in use
-- are pumped; and the numbers tell sockets apart.
pub record IsTracked (c : Sockets) : Type 0 where
  pub server : c.is_server ≡ true
  pub tracked :
      (s : Socket)
      → In s c.pumped
      → (c.current_conn ≡ some s) ⊎ ((c.next_conn ≡ some s) ⊎ In s c.closing)
  pub current_pumped : (s : Socket) → c.current_conn ≡ some s → In s c.pumped
  pub next_pumped : (s : Socket) → c.next_conn ≡ some s → In s c.pumped
  pub apart : (s t : Socket) → In s c.pumped → In t c.pumped → s.id ≡ t.id → s ≡ t

-- A newly bound socket has a number of its own.
abbrev pub IsFresh : Option Socket → Sockets → Type 0
IsFresh none c = Unit {0}
IsFresh (some l) c = (s : Socket) → In s c.pumped → s.id ≢ l.id

-- Promoting and retiring: a hop without its second half.
turned : Sockets → Sockets
turned c = retire c.current_conn (promote c).current_conn (promote c)

pumped-turned : (c : Sockets) → (turned c).pumped ≡ c.pumped
unfolding turned retire promote
pumped-turned c = ground arith

unpromoted : (c : Sockets) → c.next_conn ≡ none → turned c ≡ c
unfolding turned retire promote replaced
unpromoted c e = ground (arith, e)

promoted_fresh :
    (c : Sockets) (l : Socket)
    → c.next_conn ≡ some l
    → c.current_conn ≡ none
    → turned c ≡ record c { current_conn = some l; next_conn = none }
unfolding turned retire promote
promoted_fresh c l e n = ground (arith, e, n)

promoted_over :
    (c : Sockets) (l prev : Socket)
    → c.next_conn ≡ some l
    → c.current_conn ≡ some prev
    → l.id ≢ prev.id
    → turned c ≡ record c { current_conn = some l; next_conn = none; closing = prev ∷ c.closing }
unfolding turned retire promote replaced
promoted_over c l prev e p ne = ground (arith, e, p, ne)

promoted_same :
    (c : Sockets) (l prev : Socket)
    → c.next_conn ≡ some l
    → c.current_conn ≡ some prev
    → l.id ≡ prev.id
    → turned c ≡ record c { current_conn = some l; next_conn = none }
unfolding turned retire promote replaced
promoted_same c l prev e p same = ground (arith, e, p, same)

turned-IsTracked : (c : Sockets) → IsTracked c → IsTracked (turned c)
turned-IsTracked c v = elim (Option-cases c.next_conn) [
  | inl none_bound ↦ rw (unpromoted c none_bound) v
  | inr (l, e) ↦ elim (Option-cases c.current_conn) [
    | inl n ↦ rw (promoted_fresh c l e n) (record {
      server = v.server;
      tracked = λ s h. ground (arith, v.tracked s h, e, n);
      current_pumped = λ s q. ground (arith, v.next_pumped s, e, q);
      next_pumped = λ s q. absurd (cc);
      apart = v.apart;
    })
    | inr (prev, p) ↦ elim (Bool-cases (l.id == prev.id)) [
      | inl same ↦
          let one : l ≡ prev =
            v.apart l prev (v.next_pumped l e) (v.current_pumped prev p) (ground arith) in
          rw (promoted_same c l prev e p (ground arith)) (record {
            server = v.server;
            tracked = λ s h. ground (arith, v.tracked s h, e, p, one);
            current_pumped = λ s q. ground (arith, v.next_pumped s, e, q);
            next_pumped = λ s q. absurd (cc);
            apart = v.apart;
          })
      | inr other ↦ rw (promoted_over c l prev e p (ground arith)) (record {
        server = v.server;
        tracked = λ s h. ground (arith, v.tracked s h, e, p);
        current_pumped = λ s q. ground (arith, v.next_pumped s, e, q);
        next_pumped = λ s q. absurd (cc);
        apart = v.apart;
      })
    ]
  ]
]

turned_next : (c : Sockets) → (turned c).next_conn ≡ none
unfolding turned retire promote
turned_next c = ground arith

hop-eq-prebind :
    (config : Config) (listen : UdpAddr → Option Socket) (now now' : ℕ) (c : Sockets)
    → hop config listen now now' c
      ≡ prebind config (listen (prebind_addr config now now')) (turned c)
unfolding hop turned prebind retire
hop-eq-prebind config listen now now' c = ground arith

prebind-IsTracked :
    (config : Config) (o : Option Socket) (c : Sockets)
    → c.next_conn ≡ none
    → IsFresh o c
    → IsTracked c
    → IsTracked (prebind config o c)
unfolding prebind
prebind-IsTracked config none c n f v = ground arith
prebind-IsTracked config (some l) c n f v =
    elim (Bool-cases config.server_prebind_next_port_enabled) [
      | inl on ↦ rw on (record {
        server = v.server;
        tracked = λ s h. ground (arith, v.tracked s, n, h);
        current_pumped = λ s e. inr (v.current_pumped s e);
        next_pumped = λ s e. inl (cc);
        apart = λ s t h k e. ground (arith, v.apart s t, f s, f t, h, k);
      })
      | inr off ↦ rw off v
    ]

-- A hop of a server keeps account of every socket: each one with a pump stays current, prebound or
-- due to be closed, if the one that the hop may bind is new.
pub hop-IsTracked :
    (config : Config) (listen : UdpAddr → Option Socket) (now now' : ℕ) (c : Sockets)
    → IsFresh (listen (prebind_addr config now now')) c
    → IsTracked c
    → IsTracked (hop config listen now now' c)
hop-IsTracked config listen now now' c f v = rw (hop-eq-prebind config listen now now' c) (
    prebind-IsTracked config (listen (prebind_addr config now now')) (turned c) (turned_next c)
      (fresh_turned (listen (prebind_addr config now now')) f) (turned-IsTracked c v))
  where
    fresh_turned : (o : Option Socket) → IsFresh o c → IsFresh o (turned c)
    fresh_turned none f = tt
    fresh_turned (some l) f = λ s h. f s (rw (pumped-turned c) at h)

-- ===== src/Conn/Sockets/Lifecycle/Places.antt =====
-- How often a number occurs in the places of a world, and what a hop's parts do to them.
use quic_hop.Base.{
  ℕ, ◌⊎◌, ◌+◌, ◌≤◌, ◌≡◌, refl, List, [], ◌∷◌, ◌++◌, Option, none, some, arith, true, Option-cases,
  inl, inr,
}
use quic_hop.Config.{Config}
use quic_hop.Conn.Sockets.{Socket, Sockets, prebind, promote, replaced, retire, if_some}
use quic_hop.Conn.Sockets.Lifecycle.{World, times, due_of, held, places}

pub times-append : (i : ℕ) (xs ys : List Socket) → times i (xs ++ ys) ≡ times i xs + times i ys
times-append i [] ys = omega arith
times-append i (x ∷ xs) ys = omega (arith, times-append i xs ys)

times-five :
    (i : ℕ) (a b c d e : List Socket)
    → times i (a ++ b ++ c ++ d ++ e) ≡ times i a + times i b + times i c + times i d + times i e
times-five i a b c d e = omega (
  arith,
  times-append i (a ++ b ++ c ++ d) e,
  times-append i (a ++ b ++ c) d,
  times-append i (a ++ b) c,
  times-append i a b,
)

pub times-places :
    (i : ℕ) (w : World)
    → times i (places w)
      ≡ times i (if_some w.conn.current_conn)
        + times i (if_some w.conn.next_conn)
        + times i (held w.phase)
        + times i w.conn.closing
        + times i w.closed
times-places i w =
    times-five i (if_some w.conn.current_conn) (if_some w.conn.next_conn) (held w.phase)
      w.conn.closing w.closed

-- What the first half of a hop does to the numbers.
module _ (c : Sockets) (i : ℕ) where
  abbrev pub before : ℕ
  before = times i (if_some c.current_conn) + times i (if_some c.next_conn)

  abbrev pub after : ℕ
  after =
      times i (if_some (promote c).current_conn)
      + times i (if_some (promote c).next_conn)
      + times i (due_of c.current_conn (promote c).current_conn)

  pub promote_places : ((before ≡ 0) ⊎ (1 ≤ after)) × ((after ≡ before) ⊎ (2 ≤ before))
  unfolding promote replaced
  promote_places = elim (Option-cases c.next_conn) [
    | inl n ↦ ground (arith, n)
    | inr (l, n) ↦ elim (Option-cases c.current_conn) [
      | inl p ↦ ground (arith, n, p)
      | inr (q, p) ↦ ground (arith, n, p)
    ]
  ]

pub promote_rest :
    (c : Sockets)
    → ((promote c).is_server ≡ c.is_server)
      × ((promote c).local_conn ≡ c.local_conn)
      × ((promote c).closing ≡ c.closing)
      × ((promote c).cancelled ≡ c.cancelled)
      × ((promote c).next_conn ≡ none)
unfolding promote
promote_rest c = ground arith

pub prebind_next :
    (config : Config) (c : Sockets) (l : Socket)
    → config.server_prebind_next_port_enabled ≡ true
    → prebind config (some l) c ≡ record c { next_conn = some l; pumped = l ∷ c.pumped }
unfolding prebind
prebind_next config c l on = rw on refl

pub prebind_nothing : (config : Config) (c : Sockets) → prebind config none c ≡ c
unfolding prebind
prebind_nothing config c = ground arith

pub retire_due :
    (prev now : Option Socket) (c : Sockets)
    → retire prev now c ≡ record c { closing = due_of prev now ++ c.closing }
unfolding retire replaced
retire_due none now c = refl
retire_due (some prev) now c = ground arith

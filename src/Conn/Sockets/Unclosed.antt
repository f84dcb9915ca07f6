-- ===== src/Conn/Sockets/Unclosed.antt =====
-- `Close`: the sockets that it closes, and the one that a hop may bind behind its back.
use quic_hop.Base.{
  ◌≡◌, refl, sym, ap, ◌∙◌, ◌⊎◌, inl, inr, ◌≢◌, List, [], ◌∷◌, ◌++◌, Option, none, some, arith, true,
  Option-cases, Bool-cases,
}
use quic_hop.Config.{Config}
use quic_hop.Conn.Sockets.{Socket, Sockets, prebind, promote, replaced, retire, close, if_some}
use quic_hop.Conn.Sockets.Closing.{In, IsTracked, IsFresh}

In-append_left : (s : Socket) (xs ys : List Socket) → In s xs → In s (xs ++ ys)
In-append_left s [] ys h = absurd h
In-append_left s (x ∷ xs) ys (inl e) = inl e
In-append_left s (x ∷ xs) ys (inr h) = inr (In-append_left s xs ys h)

In-append_right : (s : Socket) (xs ys : List Socket) → In s ys → In s (xs ++ ys)
In-append_right s [] ys h = h
In-append_right s (x ∷ xs) ys h = inr (In-append_right s xs ys h)

In-append_cases : (s : Socket) (xs ys : List Socket) → In s (xs ++ ys) → In s xs ⊎ In s ys
In-append_cases s [] ys h = inr h
In-append_cases s (x ∷ xs) ys (inl e) = inl (inl e)
In-append_cases s (x ∷ xs) ys (inr h) = elim (In-append_cases s xs ys h) [
  | inl l ↦ inl (inr l)
  | inr r ↦ inr r
]

In-if_some : (s : Socket) (o : Option Socket) → o ≡ some s → In s (if_some o)
In-if_some s none e = cc
In-if_some s (some l) e = inl (cc)

-- `Close` of a server that keeps account of its sockets leaves none with a running pump behind:
-- each one is closed by it, or was already due to be closed.
pub close_covers :
    (c : Sockets) (s : Socket)
    → IsTracked c
    → In s c.pumped
    → In s (close c).0 ⊎ In s (close c).1.closing
unfolding close
close_covers c s v h = rw (v.server) (elim (v.tracked s h) [
  | inl e ↦ inl (
      In-append_left s (if_some c.current_conn ++ if_some c.next_conn) (if_some c.local_conn) (
        In-append_left s (if_some c.current_conn) (if_some c.next_conn)
          (In-if_some s c.current_conn e)))
  | inr later ↦ elim later [
    | inl e ↦ inl (
        In-append_left s (if_some c.current_conn ++ if_some c.next_conn) (if_some c.local_conn) (
          In-append_right s (if_some c.current_conn) (if_some c.next_conn)
            (In-if_some s c.next_conn e)))
    | inr due ↦ inr due
  ]
])

In-if_some_eq : (s : Socket) (o : Option Socket) → In s (if_some o) → o ≡ some s
In-if_some_eq s none h = absurd h
In-if_some_eq s (some l) (inl e) = ground (arith, e)
In-if_some_eq s (some l) (inr h) = absurd h

retire_keeps :
    (o now : Option Socket) (d : Sockets)
    → ((retire o now d).cancelled ≡ d.cancelled) × ((retire o now d).pumped ≡ d.pumped)
unfolding retire
retire_keeps o now d = ground arith

promote_keeps :
    (c : Sockets)
    → ((promote c).is_server ≡ c.is_server)
      × ((promote c).local_conn ≡ c.local_conn)
      × ((promote c).closing ≡ c.closing)
unfolding promote
promote_keeps c = ground arith

bound_while_closing :
    (config : Config) (l : Socket) (c : Sockets)
    → config.server_prebind_next_port_enabled ≡ true
    → let after = prebind config (some l) (close c).1 in
      (after.cancelled ≡ true) × (after.pumped ≡ l ∷ c.pumped) × (after.closing ≡ c.closing)
unfolding prebind close
bound_while_closing config l c on = rw on (refl, refl, refl)

-- A socket of another number than all that are in use is not among those `Close` closes.
not_closed :
    (c : Sockets) (l : Socket)
    → c.is_server ≡ true
    → ((s : Socket) → c.current_conn ≡ some s → s.id ≢ l.id)
    → ((s : Socket) → c.next_conn ≡ some s → s.id ≢ l.id)
    → c.local_conn ≡ none
    → ¬ In l (close c).0
unfolding close
not_closed c l server current next alone h =
    elim (In-append_cases l (if_some c.current_conn ++ if_some c.next_conn) (if_some c.local_conn)
      (rw server at h)) [
        | inl serving ↦
            elim (In-append_cases l (if_some c.current_conn) (if_some c.next_conn) serving) [
              | inl e ↦ current l (In-if_some_eq l c.current_conn e) refl
              | inr e ↦ next l (In-if_some_eq l c.next_conn e) refl
            ]
        | inr local ↦ let e = In-if_some_eq l c.local_conn local in absurd (cc e)
      ]

module _ (c : Sockets) (l : Socket) (v : IsTracked c) (f : IsFresh (some l) c) where
  promoted_other : (s : Socket) → (promote c).current_conn ≡ some s → s.id ≢ l.id
  unfolding promote
  promoted_other s e = elim (Option-cases c.next_conn) [
    | inl unbound ↦ f s (v.current_pumped s (rw unbound at e))
    | inr (n, there) ↦ f s (v.next_pumped s (there ∙ rw there at e))
  ]

  promoted_next : (s : Socket) → (promote c).next_conn ≡ some s → s.id ≢ l.id
  unfolding promote
  promoted_next s e = elim (Option-cases c.next_conn) [
    | inl unbound ↦ absurd (cc (rw unbound at e))
    | inr (n, there) ↦ absurd (cc (rw there at e))
  ]

  not_retired :
      (d : Sockets) (now : Option Socket)
      → ((s : Socket) → In s d.closing → s.id ≢ l.id)
      → ¬ In l (retire c.current_conn now d).closing
  unfolding retire
  not_retired d now due h = elim (Option-cases c.current_conn) [
    | inl none_before ↦ due l (rw none_before at h) refl
    | inr (prev, before) ↦ elim (Bool-cases (replaced now prev)) [
      | inl old ↦ elim (the_cases prev (rw (before, old) at h)) [
        | inl e ↦ f prev (v.current_pumped prev before) (ap (λ (x : Socket). x.id) (sym e))
        | inr later ↦ due l later refl
      ]
      | inr kept ↦ due l (rw (before, kept) at h) refl
    ]
  ]
    where
      the_cases : (prev : Socket) → In l (prev ∷ d.closing) → (l ≡ prev) ⊎ In l d.closing
      the_cases prev h = h

  -- The lock is free between the two halves of a hop. If `Close` runs there, the port that the second
  -- half binds has a pump on a cancelled connection, and neither `Close` nor a timer closes it: the
  -- socket is new, and the server has no fixed local socket.
  pub close_during_hop :
      (config : Config)
      → config.server_prebind_next_port_enabled ≡ true
      → c.local_conn ≡ none
      → ((s : Socket) → In s c.closing → s.id ≢ l.id)
      → let closed = close (promote c) in
        let after =
          retire c.current_conn (promote c).current_conn (prebind config (some l) closed.1) in
        (after.cancelled ≡ true) × In l after.pumped × (¬ In l closed.0) × (¬ In l after.closing)
  close_during_hop config on alone due =
      let bound = bound_while_closing config l (promote c) on in
      let keeps =
        retire_keeps c.current_conn (promote c).current_conn
          (prebind config (some l) (close (promote c)).1) in
      let same = promote_keeps c in
      (
        keeps.0 ∙ bound.0,
        rw (keeps.1, bound.1) (inl refl),
        not_closed (promote c) l (same.0 ∙ v.server) promoted_other promoted_next (same.1 ∙ alone),
        not_retired (prebind config (some l) (close (promote c)).1) (promote c).current_conn
            λ s h. due s (rw (bound.2, same.2) at h),
      )

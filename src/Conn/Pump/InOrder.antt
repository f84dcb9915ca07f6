-- ===== src/Conn/Pump/InOrder.antt =====
-- What the pumps put into the queue and `ReadFrom` takes out of it.
use mathlib.Core.List.{append_assoc, append-nil}
use quic_hop.Base.{
  ℕ, ◌≤◌, ◌≡◌, refl, ◌∙◌, List, [], ◌∷◌, ◌++◌, Bool, true, false, Option, none, some, length, arith,
  length-append, if◌then◌else◌, ◌==◌, ==_iff, Bool-cases, inl, inr,
}
use quic_hop.Conn.Packet.{Packet}
use quic_hop.Conn.Pump.{
  queue_capacity, Reading, datagram, failure, Choice, send, cancelled, neither, may_choose, pump,
  packet_of, PumpPhase, reading, in_hand, ended, phase_after, set_phase, Tagged, tagged, Reached,
  start, read, chose, took,
}

pub data Subsequence : List Packet → List Packet → Type 0 where
  nothing : Subsequence [] []
  skipped : (xs ys : List Packet) (y : Packet) → Subsequence xs ys → Subsequence xs (y ∷ ys)
  kept : (xs ys : List Packet) (y : Packet) → Subsequence xs ys → Subsequence (y ∷ xs) (y ∷ ys)

Subsequence-skip_last :
    (xs ys : List Packet) (y : Packet) → Subsequence xs ys → Subsequence xs (ys ++ y ∷ [])
Subsequence-skip_last xs ys y nothing = skipped [] [] y nothing
Subsequence-skip_last xs ys y (skipped _ zs z s) =
    skipped xs (zs ++ y ∷ []) z (Subsequence-skip_last xs zs y s)
Subsequence-skip_last xs ys y (kept ws zs z s) =
    kept ws (zs ++ y ∷ []) z (Subsequence-skip_last ws zs y s)

Subsequence-keep_last :
    (xs ys : List Packet) (y : Packet)
    → Subsequence xs ys
    → Subsequence (xs ++ y ∷ []) (ys ++ y ∷ [])
Subsequence-keep_last xs ys y nothing = kept [] [] y nothing
Subsequence-keep_last xs ys y (skipped _ zs z s) =
    skipped (xs ++ y ∷ []) (zs ++ y ∷ []) z (Subsequence-keep_last xs zs y s)
Subsequence-keep_last xs ys y (kept ws zs z s) =
    kept (ws ++ y ∷ []) (zs ++ y ∷ []) z (Subsequence-keep_last ws zs y s)

-- The packets of one pump.
abbrev pub of_pump : ℕ → List Tagged → List Packet
of_pump j [] = []
of_pump j ((i, p) ∷ ts) = let rest = of_pump j ts in if i == j then p ∷ rest else rest

of_pump-append : (j : ℕ) (ts us : List Tagged) → of_pump j (ts ++ us) ≡ of_pump j ts ++ of_pump j us
of_pump-append j [] us = refl
of_pump-append j ((i, p) ∷ ts) us = elim (Bool-cases (i == j)) [
  | inl mine ↦ rw (mine, of_pump-append j ts us) refl
  | inr other ↦ rw (other) (of_pump-append j ts us)
]

-- What a pump holds is its last reading, which it has not sent yet.
abbrev InHand : PumpPhase → List Packet → List Packet → Type 0
InHand reading sent seen = Subsequence sent seen
InHand ended sent seen = Subsequence sent seen
InHand (in_hand r) sent seen =
    (before : List Packet) × (seen ≡ before ++ packet_of r ∷ []) × Subsequence sent before

abbrev InHandOf : ℕ → List Tagged → (ℕ → PumpPhase) → List Tagged → List Tagged → Type 0
InHandOf j seen phases taken queue = InHand (phases j) (of_pump j (taken ++ queue)) (of_pump j seen)

InHand-Subsequence :
    (phase : PumpPhase) (sent seen : List Packet) → InHand phase sent seen → Subsequence sent seen
InHand-Subsequence reading sent seen h = h
InHand-Subsequence ended sent seen h = h
InHand-Subsequence (in_hand r) sent seen (before, e, s) =
    rw e (Subsequence-skip_last sent before (packet_of r) s)

abbrev listed : Option Packet → List Packet
listed none = []
listed (some p) = p ∷ []

of_pump-tagged_self : (i : ℕ) (o : Option Packet) → of_pump i (tagged i o) ≡ listed o
of_pump-tagged_self i none = refl
of_pump-tagged_self i (some p) = rw ((==_iff i i).1 refl) refl

of_pump-tagged_other :
    (i j : ℕ) (o : Option Packet) → (i == j) ≡ false → of_pump j (tagged i o) ≡ []
of_pump-tagged_other i j none other = refl
of_pump-tagged_other i j (some p) other = rw other refl

-- A round ends: the packet in hand is sent or dropped.
pump-InHand :
    (r : Reading) (choice : Choice) (sent seen : List Packet)
    → InHand (in_hand r) sent seen
    → InHand (phase_after (pump r choice).0) (sent ++ listed (pump r choice).1) seen
unfolding pump
pump-InHand (datagram content source) send sent seen (before, e, s) =
    rw e (Subsequence-keep_last sent before (packet_of (datagram content source)) s)
pump-InHand (datagram content source) cancelled sent seen h =
    rw append-nil (InHand-Subsequence (in_hand (datagram content source)) sent seen h)
pump-InHand (datagram content source) neither sent seen h =
    rw append-nil (InHand-Subsequence (in_hand (datagram content source)) sent seen h)
pump-InHand (failure text true) choice sent seen h =
    rw append-nil (InHand-Subsequence (in_hand (failure text true)) sent seen h)
pump-InHand (failure text false) send sent seen (before, e, s) =
    rw e (Subsequence-keep_last sent before (packet_of (failure text false)) s)
pump-InHand (failure text false) cancelled sent seen h =
    rw append-nil (InHand-Subsequence (in_hand (failure text false)) sent seen h)
pump-InHand (failure text false) neither sent seen h =
    rw append-nil (InHand-Subsequence (in_hand (failure text false)) sent seen h)

module _ (seen : List Tagged) (phases : ℕ → PumpPhase) (taken queue : List Tagged) (i j : ℕ)
    (r : Reading) where
  read-InHandOf :
      phases i ≡ reading
      → InHandOf j seen phases taken queue
      → InHandOf j (seen ++ (i, packet_of r) ∷ []) (set_phase i (in_hand r) phases) taken queue
  unfolding set_phase
  read-InHandOf idle h = elim (Bool-cases (i == j)) [
    | inr other ↦ rw (other, of_pump-append j seen ((i, packet_of r) ∷ []), other, append-nil) h
    | inl mine ↦
        let same : i ≡ j = (==_iff i j).0 mine in
        let at : phases j ≡ reading = cc (same, idle) in
        rw mine
          (of_pump j seen, of_pump-append j seen ((i, packet_of r) ∷ []) ∙ rw mine refl, rw at at h)
  ]

  chose-InHandOf :
      (choice : Choice)
      → phases i ≡ in_hand r
      → InHandOf j seen phases taken queue
      → InHandOf j seen
          (set_phase i (phase_after (pump r choice).0) phases)
          taken
          (queue ++ tagged i (pump r choice).1)
  unfolding set_phase
  chose-InHandOf choice held h =
      let o = (pump r choice).1 in
      let split : of_pump j (taken ++ (queue ++ tagged i o))
          ≡ of_pump j (taken ++ queue) ++ of_pump j (tagged i o) =
        rw (← append_assoc taken queue (tagged i o))
          (of_pump-append j (taken ++ queue) (tagged i o)) in
      elim (Bool-cases (i == j)) [
        | inr other ↦ rw (other, split, of_pump-tagged_other i j o other, append-nil) h
        | inl mine ↦
            let same : i ≡ j = (==_iff i j).0 mine in
            let at : phases j ≡ in_hand r = cc (same, held) in
            let put : of_pump j (tagged i o) ≡ listed o = rw same (of_pump-tagged_self j o) in
            rw (mine, split, put)
              (pump-InHand r choice (of_pump j (taken ++ queue)) (of_pump j seen) (rw at at h))
      ]

Reached-InHandOf :
    (j : ℕ) (seen : List Tagged) (phases : ℕ → PumpPhase) (taken queue : List Tagged)
    → Reached seen phases taken queue
    → InHandOf j seen phases taken queue
Reached-InHandOf j _ _ _ _ start = nothing
Reached-InHandOf j _ _ _ _ (read seen phases taken queue i r idle before) =
    read-InHandOf seen phases taken queue i j r idle
      (Reached-InHandOf j seen phases taken queue before)
Reached-InHandOf j _ _ _ _ (chose seen phases taken queue i r over choice held free before) =
    chose-InHandOf seen phases taken queue i j r choice held
      (Reached-InHandOf j seen phases taken queue before)
Reached-InHandOf j _ _ _ _ (took seen phases taken queue t before) =
    rw (append_assoc taken (t ∷ []) queue) (Reached-InHandOf j seen phases taken (t ∷ queue) before)

-- A send finds room.
chose_fits :
    (r : Reading) (over : Bool) (choice : Choice) (i : ℕ) (queue : List Tagged)
    → may_choose r over (length queue) choice ≡ true
    → length queue ≤ queue_capacity
    → length (queue ++ tagged i (pump r choice).1) ≤ queue_capacity
unfolding may_choose pump
chose_fits (datagram content source) over send i queue free room =
    ground (arith, free, length-append queue ((i, packet_of (datagram content source)) ∷ []))
chose_fits (datagram content source) over cancelled i queue free room = rw append-nil room
chose_fits (datagram content source) over neither i queue free room = rw append-nil room
chose_fits (failure text true) over choice i queue free room = rw append-nil room
chose_fits (failure text false) over send i queue free room =
    ground (arith, free, length-append queue ((i, packet_of (failure text false)) ∷ []))
chose_fits (failure text false) over cancelled i queue free room = rw append-nil room
chose_fits (failure text false) over neither i queue free room = rw append-nil room

queue_bound :
    (seen : List Tagged) (phases : ℕ → PumpPhase) (taken queue : List Tagged)
    → Reached seen phases taken queue
    → length queue ≤ queue_capacity
queue_bound _ _ _ _ start = omega arith
queue_bound _ _ _ _ (read seen phases taken queue i r idle before) =
    queue_bound seen phases taken queue before
queue_bound _ _ _ _ (chose seen phases taken queue i r over choice held free before) =
    chose_fits r over choice i queue free (queue_bound seen phases taken queue before)
queue_bound _ _ _ _ (took seen phases taken queue t before) =
    omega (arith, queue_bound seen phases taken (t ∷ queue) before)

-- However the pumps' reads, their `select`s and the calls that take from the queue interleave, other
-- pumps' steps between one pump's read and its `select` included: the queue never holds more than
-- 2048 packets, and of each pump the packets taken so far with those still queued are what it read,
-- in the order of its reads; some may be dropped, none is reordered, doubled or made up.
pub pump_keeps_order :
    (seen : List Tagged) (phases : ℕ → PumpPhase) (taken queue : List Tagged)
    → Reached seen phases taken queue
    → (length queue ≤ queue_capacity)
      × ((j : ℕ) → Subsequence (of_pump j (taken ++ queue)) (of_pump j seen))
pump_keeps_order seen phases taken queue reached = (
  queue_bound seen phases taken queue reached,
  λ j.
      InHand-Subsequence (phases j) (of_pump j (taken ++ queue)) (of_pump j seen)
        (Reached-InHandOf j seen phases taken queue reached),
)

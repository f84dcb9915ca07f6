-- ===== src/Conn/Pump.antt =====
-- `packetPump`: the receiving goroutines, one for each socket, and the queue that they share.
pub mod InOrder
use quic_hop.Base.{
  ℕ, ◌+◌, ◌≤◌, ◌≡◌, refl, List, [], ◌∷◌, ◌++◌, Bool, true, false, Option, none, some, not, ◌&&◌,
  ltb, length, arith, if◌then◌else◌, ◌==◌,
}
use quic_hop.Conn.Packet.{Addr, Packet}

-- `make(chan packet, 2048)`
abbrev pub queue_capacity : ℕ
queue_capacity = 2048

-- A datagram, or an error with its text and whether the text contains "closed".
pub data Reading : Type 0 where
  datagram : List ℕ → Addr → Reading
  failure : List ℕ → Bool → Reading

-- What the `select` took, where its cases were ready; `neither` is its `default`, and also the return
-- on a closed socket, which comes before any `select`.
pub data Choice : Type 0 where
  send : Choice
  cancelled : Choice
  neither : Choice

abbrev pub has_room : ℕ → Bool
has_room queued = ltb queued queue_capacity

-- Whether a case can be taken with so many packets queued: a send needs room, the other the end of
-- the context, and a `default` that neither can go. An error's `select` has no `default`, and waits.
unfoldable pub may_choose : Reading → Bool → ℕ → Choice → Bool
may_choose (datagram content source) over queued send = has_room queued
may_choose (datagram content source) over queued cancelled = over
may_choose (datagram content source) over queued neither = not over && not (has_room queued)
may_choose (failure text true) over queued send = false
may_choose (failure text true) over queued cancelled = false
may_choose (failure text true) over queued neither = true
may_choose (failure text false) over queued send = has_room queued
may_choose (failure text false) over queued cancelled = over
may_choose (failure text false) over queued neither = false

-- The packet of a reading.
unfoldable pub packet_of : Reading → Packet
packet_of (datagram content source) = record { payload = content; addr = some source; err = none }
packet_of (failure text closed) = record { payload = []; addr = none; err = some text }

-- The rest of a round once `ReadFrom` has returned: whether the goroutine goes on to read again, and
-- the packet that it sent to the queue.
unfoldable pub pump : Reading → Choice → Bool × Option Packet
unfolding packet_of
pump (datagram content source) send = (true, some (packet_of (datagram content source)))
pump (datagram content source) cancelled = (false, none)
pump (datagram content source) neither = (true, none)
pump (failure text true) choice = (false, none)
pump (failure text false) send = (false, some (packet_of (failure text false)))
pump (failure text false) cancelled = (false, none)
pump (failure text false) neither = (false, none)

-- Where a goroutine stands: in its `ReadFrom`, with what that returned, or at its end.
pub data PumpPhase : Type 0 where
  reading : PumpPhase
  in_hand : Reading → PumpPhase
  ended : PumpPhase

abbrev pub phase_after : Bool → PumpPhase
phase_after true = reading
phase_after false = ended

-- One pump's phase set, the others' kept.
unfoldable pub set_phase : ℕ → PumpPhase → (ℕ → PumpPhase) → ℕ → PumpPhase
set_phase i phase phases j = if i == j then phase else phases j

-- Packets with the number of the pump, and so of the socket, that they came through.
abbrev pub Tagged : Type 0
Tagged = ℕ × Packet

abbrev pub tagged : ℕ → Option Packet → List Tagged
tagged i none = []
tagged i (some p) = (i, p) ∷ []

-- The readings so far in the order of the sockets' reads, the phases of the pumps, the packets that
-- `ReadFrom` took, and the queue. A pump's read and its `select` are two steps, between which any
-- others may come; a pump that has not started has not read.
pub data Reached : List Tagged → (ℕ → PumpPhase) → List Tagged → List Tagged → Type 0 where
  start : Reached [] (λ i. reading) [] []
  read :
      (seen : List Tagged) (phases : ℕ → PumpPhase) (taken queue : List Tagged) (i : ℕ)
      (r : Reading)
      → phases i ≡ reading
      → Reached seen phases taken queue
      → Reached (seen ++ (i, packet_of r) ∷ []) (set_phase i (in_hand r) phases) taken queue
  chose :
      (seen : List Tagged) (phases : ℕ → PumpPhase) (taken queue : List Tagged) (i : ℕ)
      (r : Reading) (over : Bool) (choice : Choice)
      → phases i ≡ in_hand r
      → may_choose r over (length queue) choice ≡ true
      → Reached seen phases taken queue
      → Reached seen
          (set_phase i (phase_after (pump r choice).0) phases)
          taken
          (queue ++ tagged i (pump r choice).1)
  took :
      (seen : List Tagged) (phases : ℕ → PumpPhase) (taken queue : List Tagged) (t : Tagged)
      → Reached seen phases taken (t ∷ queue)
      → Reached seen phases (taken ++ t ∷ []) queue

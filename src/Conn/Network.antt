-- ===== src/Conn/Network.antt =====
-- A client's packets over a network that loses, repeats and reorders them, with packets of other
-- addresses in between: `WriteTo` for each packet, then the server's `ReadFrom` for each arrival.
pub mod Sent
pub mod Elsewhere
pub mod Faithful
pub mod Rebound
pub mod Back
use quic_hop.Base.{
  ℕ, ◌≤◌, ◌≡◌, List, [], ◌∷◌, ◌++◌, Option, none, some, get_elem?, ◌>>=◌, length, bit_and,
}
use quic_hop.Config.{Config}
use quic_hop.Algo.Rng.{MathRand}
use quic_hop.Conn.Packet.{Addr, Packet}
use quic_hop.Conn.Read.{Receiver, Delivery, handle_packet}
use quic_hop.Conn.Read.Server.{arrived}
use quic_hop.Conn.Write.{Sender, prepare}

-- A packet of the QUIC stack under one CID, by its first byte and what follows the CID.
abbrev pub Frame : Type 0
Frame = ℕ × List ℕ

module _ (cid : List ℕ) where
  abbrev pub framed : Frame → List ℕ
  framed fr = fr.0 ∷ cid ++ fr.1

  abbrev pub all_framed : List Frame → List (List ℕ)
  all_framed [] = []
  all_framed (fr ∷ frs) = framed fr ∷ all_framed frs

  abbrev pub AllFit : List ℕ → List Frame → Type 0
  AllFit buffer [] = Unit {0}
  AllFit buffer (fr ∷ frs) = (length (framed fr) ≤ length buffer) × AllFit buffer frs

-- Every first byte is that of a short header, whatever its other bits are.
abbrev pub AllShort : List Frame → Type 0
AllShort [] = Unit {0}
AllShort (fr ∷ frs) = (bit_and fr.0 0x80 ≡ 0) × AllShort frs

-- What is sent for the packets of the client's QUIC stack.
unfoldable pub send_all :
    (m : MathRand) → Config → Sender m → List (List ℕ) → Option (List (List ℕ) × Sender m)
send_all m config s [] = some ([], s)
send_all m config s (p ∷ ps) = do
  sent ← prepare m config s p
  later ← send_all m config sent.1 ps
  some (sent.0 ∷ later.0, later.1)

-- What the calls of `ReadFrom` return for the packets that arrive, each into the same buffer.
unfoldable pub receive_all :
    MathRand → List ℕ → Receiver → List Packet → Option (List Delivery × Receiver)
receive_all m buffer r [] = some ([], r)
receive_all m buffer r (pkt ∷ pkts) = do
  received ← handle_packet m r buffer pkt
  later ← receive_all m buffer received.1 pkts
  some (received.0 ∷ later.0, later.1)

-- One arrival at the server: a copy of the sent packet of this number, or any other packet.
pub data Arrival : Type 0 where
  copy_of : ℕ → Arrival
  other_packet : Packet → Arrival

-- The packets of the arrivals; a number that was not sent brings none.
abbrev pub carried : Addr → List (List ℕ) → List Arrival → List Packet
carried source wires [] = []
carried source wires (copy_of i ∷ arrivals) = elim (get_elem? wires i) [
  | some wire ↦ arrived wire (some source) ∷ carried source wires arrivals
  | none ↦ carried source wires arrivals
]
carried source wires (other_packet pkt ∷ arrivals) = pkt ∷ carried source wires arrivals

-- The client sends, and the server receives what the network makes of it.
unfoldable pub transmit :
    (m : MathRand)
    → Config
    → List ℕ
    → Addr
    → Sender m
    → Receiver
    → List (List ℕ)
    → List Arrival
    → Option (List Delivery)
unfolding send_all receive_all
transmit m config buffer source s r ps arrivals = do
  sent ← send_all m config s ps
  received ← receive_all m buffer r (carried source sent.0 arrivals)
  some received.0

-- The other way, a server's packets come from whichever port it had when it sent them: each arrival is
-- a copy of the sent packet of this number, with the address that it came from.
abbrev pub carried_from : List (List ℕ) → List (ℕ × Option Addr) → List Packet
carried_from wires [] = []
carried_from wires ((i, origin) ∷ arrivals) = elim (get_elem? wires i) [
  | some wire ↦ arrived wire origin ∷ carried_from wires arrivals
  | none ↦ carried_from wires arrivals
]

unfoldable pub transmit_back :
    (m : MathRand)
    → Config
    → List ℕ
    → Sender m
    → Receiver
    → List (List ℕ)
    → List (ℕ × Option Addr)
    → Option (List Delivery)
unfolding send_all receive_all
transmit_back m config buffer s r ps arrivals = do
  sent ← send_all m config s ps
  received ← receive_all m buffer r (carried_from sent.0 arrivals)
  some received.0

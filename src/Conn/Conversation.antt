-- ===== src/Conn/Conversation.antt =====
-- Both ends together: a client's packets through `WriteTo`, and then through the server's `ReadFrom`
-- under the client's address, in order.
pub mod Received
pub mod Delivered
use quic_hop.Base.{ℕ, List, [], ◌∷◌, Option, none, some, ◌>>=◌}
use quic_hop.Config.{Config}
use quic_hop.Algo.Rng.{MathRand}
use quic_hop.Conn.Packet.{Addr}
use quic_hop.Conn.Read.{Receiver, Delivery, handle_packet}
use quic_hop.Conn.Read.Server.{arrived}
use quic_hop.Conn.Write.{Sender, prepare}

-- The deliveries of the packets, each into the same buffer.
unfoldable pub converse :
    (m : MathRand)
    → Config
    → List ℕ
    → Addr
    → Sender m
    → Receiver
    → List (List ℕ)
    → Option (List Delivery)
converse m config buffer source s r [] = some []
converse m config buffer source s r (p ∷ ps) = do
  sent ← prepare m config s p
  received ← handle_packet m r buffer (arrived sent.0 (some source))
  later ← converse m config buffer source sent.1 received.1 ps
  some (received.0 ∷ later)

-- ===== src/Tests/Conn.antt =====
-- Packets of a hidden connection on concrete inputs.
use quic_hop.Base.{ℕ, ◌≡◌, refl, List, [], ◌∷◌, ◌++◌, some, arith, replicate}
use quic_hop.Base.Assoc.{lookup, bytes_keys}
use quic_hop.Config.{codes}
use quic_hop.Session.{ServerSessionMap, new_cid_cache}
use quic_hop.Session.Invariant.{new_cid_cache-IsValid}
use quic_hop.Session.Servers.{cache_of}
use quic_hop.Conn.Packet.{Addr, Packet}
use quic_hop.Conn.Read.{Receiver, Delivery, handle_packet}
use quic_hop.Conn.Read.Deliver.{Delivers}
use quic_hop.Conn.Read.Server.{serving, arrived, handle_packet_server}
use quic_hop.Conn.Read.Total.{IsReady, handle_packet_total}
use quic_hop.Conn.Write.{Sender}
use quic_hop.Conn.Conversation.Received.{Knows-known, Knows-strange, Knows-only}
use quic_hop.Tests.{
  counter_rand, first_cid, hidden_cid, first_cid-IsBytes, obfuscate-first_cid, first_cache,
  first_cache-Knows, differs, starts, all_bytes-IsBytes,
}

abbrev pub peer : Addr
peer = codes "10.0.0.7:4242"

abbrev known_peer : ServerSessionMap
known_peer = (peer, first_cache) ∷ []

peer_cache : cache_of known_peer peer ≡ first_cache
unfolding cache_of lookup
peer_cache = refl

abbrev pub body : List ℕ
body = 200 ∷ 201 ∷ 202 ∷ []

abbrev pub buffer : List ℕ
buffer = replicate 64 0

handle_packet_server_example :
    (d : Delivery) × (after : ServerSessionMap) × (handle_packet counter_rand
        (serving known_peer new_cid_cache [])
        buffer
        (arrived (0x40 ∷ hidden_cid ++ body) (some peer))
      ≡ some (d, serving after new_cid_cache []))
    × Delivers buffer (0x40 ∷ first_cid ++ body) (some peer) d
    × ((other : Addr) → cache_of after other ≡ cache_of known_peer other)
unfolding cache_of lookup
handle_packet_server_example =
    handle_packet_server counter_rand known_peer new_cid_cache [] buffer 0x40 first_cid hidden_cid
      body 7 peer (first_cache-Knows.valid) refl first_cid-IsBytes (omega arith) refl
      obfuscate-first_cid (Knows-known first_cid first_cache first_cache-Knows)
      (Knows-strange first_cid hidden_cid first_cache first_cache-Knows differs)
      (Knows-only first_cid first_cache first_cache-Knows) starts (omega arith)

-- A receiver that meets a hidden CID it does not know.
abbrev pub strange_packet : Packet
strange_packet = arrived (0x40 ∷ hidden_cid ++ body) (some peer)

pub nothing-IsReady : IsReady (serving [] new_cid_cache [])
unfolding cache_of lookup
nothing-IsReady = record {
  each_server = λ source. new_cid_cache-IsValid;
  client = new_cid_cache-IsValid;
}

handle_packet_total_example :
    (d : Delivery) × (r' : Receiver) × (handle_packet counter_rand
        (serving [] new_cid_cache [])
        buffer
        strange_packet
      ≡ some (d, r'))
    × IsReady r'
handle_packet_total_example =
    handle_packet_total counter_rand (serving [] new_cid_cache []) nothing-IsReady buffer
      (omega arith) strange_packet (all_bytes-IsBytes (0x40 ∷ hidden_cid ++ body) refl)

abbrev sender : Sender counter_rand
sender = record { tx_counts = []; obf_rng = 7 }

abbrev bodies : List (List ℕ)
bodies = body ∷ [] ∷ body ∷ []

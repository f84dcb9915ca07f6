-- ===== src/Tests/Network.antt =====
-- A lossy network, and a client whose address changes, on concrete inputs.
use quic_hop.Base.{ℕ, ◌≡◌, ◌≢◌, refl, List, [], ◌∷◌, ◌++◌, Option, none, some, arith, ap, get_or}
use quic_hop.Base.Assoc.{lookup, bytes_keys}
use quic_hop.Config.{codes, default_config}
use quic_hop.Session.{ServerSessionMap, new_cid_cache}
use quic_hop.Session.Invariant.{new_cid_cache-IsValid}
use quic_hop.Session.Servers.{cache_of}
use quic_hop.Conn.Packet.{Addr, Packet}
use quic_hop.Conn.Read.{Delivery, handle_packet}
use quic_hop.Conn.Read.Deliver.{Delivers}
use quic_hop.Conn.Read.Server.{serving, dialing, arrived}
use quic_hop.Conn.Write.{Sender, count_of, prepare}
use quic_hop.Conn.Conversation.Received.{Knows}
use quic_hop.Conn.Network.{Frame, Arrival, copy_of, other_packet, transmit, transmit_back}
use quic_hop.Conn.Network.Back.{AllUnmoved, transmit_back_unmoved}
use quic_hop.Conn.Network.Faithful.{AllFaithful, transmit_faithful}
use quic_hop.Conn.Network.Rebound.{rebound_misdelivered}
use quic_hop.Tests.{
  counter_rand, first_cid, hidden_cid, first_cid-IsBytes, first_cid_moves, starts,
  all_bytes-IsBytes,
}
use quic_hop.Tests.Conn.{peer, body, buffer, nothing-IsReady}

-- Eight packets of the CID were sent before, so that the third of these is the first hidden one.
abbrev late_sender : Sender counter_rand
late_sender = record { tx_counts = (first_cid, 8) ∷ []; obf_rng = 7 }

abbrev four_frames : List Frame
four_frames = (0x40, body) ∷ (0x5b, []) ∷ (0x41, body) ∷ (0x66, 9 ∷ []) ∷ []

abbrev stranger : Packet
stranger = arrived (0x40 ∷ hidden_cid ++ body) (some (codes "10.0.0.8:4242"))

last_digit : Option Addr → ℕ
last_digit none = 0
last_digit (some there) = get_or there 7 0

stranger_elsewhere : stranger.addr ≢ some peer
unfolding last_digit
stranger_elsewhere e = absurd (omega (arith, ap last_digit e))

-- The third packet is lost, the fourth comes twice and before the first.
abbrev arrivals : List Arrival
arrivals = copy_of 1 ∷ copy_of 3 ∷ other_packet stranger ∷ copy_of 0 ∷ copy_of 3 ∷ []

transmit_faithful_example :
    (ds : List Delivery) × (transmit counter_rand default_config buffer peer late_sender
        (serving [] new_cid_cache [])
        ((0x40 ∷ first_cid ++ body)
          ∷ (0x5b ∷ first_cid)
          ∷ (0x41 ∷ first_cid ++ body)
          ∷ (0x66 ∷ first_cid ++ (9 ∷ []))
          ∷ [])
        arrivals
      ≡ some ds)
    × AllFaithful buffer peer first_cid four_frames arrivals ds
transmit_faithful_example =
    transmit_faithful counter_rand default_config buffer peer first_cid refl first_cid-IsBytes
      starts first_cid_moves (omega arith) new_cid_cache new_cid_cache-IsValid [] late_sender []
      four_frames arrivals (refl, (refl, (refl, (refl, tt))))
      (omega arith, (omega arith, (omega arith, (omega arith, tt))))
      (
        omega arith,
        (
          omega arith,
          (
            stranger_elsewhere,
            all_bytes-IsBytes (0x40 ∷ hidden_cid ++ body) refl,
            (omega arith, (omega arith, tt)),
          ),
        ),
      )
      (unfold count_of lookup in omega arith) nothing-IsReady (unfold cache_of lookup in refl)

rebound_misdelivered_example :
    (hidden : List ℕ) × (s' : Sender counter_rand) × (d : Delivery) × (after : ServerSessionMap)
    × (prepare counter_rand default_config
          record { tx_counts = (first_cid, 12) ∷ []; obf_rng = 7 }
          (0x40 ∷ first_cid ++ body)
        ≡ some (0x40 ∷ hidden ++ body, s'))
    × (hidden ≢ first_cid)
    × (handle_packet counter_rand
          (serving [] new_cid_cache [])
          buffer
          (arrived (0x40 ∷ hidden ++ body) (some peer))
        ≡ some (d, serving after new_cid_cache []))
    × Delivers buffer (0x40 ∷ hidden ++ body) (some peer) d
    × Knows hidden (cache_of after peer)
rebound_misdelivered_example =
    rebound_misdelivered counter_rand default_config new_cid_cache [] buffer 0x40 first_cid refl
      first_cid-IsBytes refl first_cid_moves
      record { tx_counts = (first_cid, 12) ∷ []; obf_rng = 7 } [] body peer refl
      (unfold count_of lookup in omega arith) (unfold cache_of lookup in refl) (omega arith)

-- From three ports, the fourth packet twice.
abbrev from_ports : List (ℕ × Option Addr)
from_ports =
    (1, some (codes "192.168.2.7:20001"))
    ∷ (3, some (codes "192.168.2.9:30002"))
    ∷ (0, none)
    ∷ (3, some (codes "192.168.2.7:20001"))
    ∷ []

transmit_back_unmoved_example :
    (ds : List Delivery) × (transmit_back counter_rand default_config buffer late_sender
        (dialing [] new_cid_cache [])
        ((0x40 ∷ first_cid ++ body)
          ∷ (0x5b ∷ first_cid)
          ∷ (0x41 ∷ first_cid ++ body)
          ∷ (0x66 ∷ first_cid ++ (9 ∷ []))
          ∷ [])
        from_ports
      ≡ some ds)
    × AllUnmoved buffer first_cid four_frames from_ports ds
transmit_back_unmoved_example =
    transmit_back_unmoved counter_rand default_config buffer first_cid refl first_cid-IsBytes starts
      first_cid_moves [] [] late_sender four_frames from_ports (refl, (refl, (refl, (refl, tt))))
      (omega arith, (omega arith, (omega arith, (omega arith, tt))))
      (omega arith, (omega arith, (omega arith, (omega arith, tt))))
      (unfold count_of lookup in omega arith)

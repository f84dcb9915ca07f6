-- ===== src/Conn/Network/Faithful.antt =====
-- Whatever the network does to a client's packets, what arrives of them is delivered as it was
-- written, once the server has seen the CID in the clear.
use quic_hop.Base.{
  ℕ, zero, suc, ◌+◌, ◌≤◌, ◌<◌, ◌≡◌, refl, sym, ◌∙◌, ◌≢◌, List, [], ◌∷◌, some, length, bit_and, take,
  replicate, inl, inr, get_elem?,
}
use quic_hop.Base.BitArray.{IsBytes}
use quic_hop.Config.{Config}
use quic_hop.Algo.Rng.{MathRand}
use quic_hop.Algo.Codec.{get_uint16, obfuscate}
use quic_hop.Session.{CidCache, ServerSessionMap, new_cid_cache}
use quic_hop.Session.Invariant.{IsValid}
use quic_hop.Session.Servers.{cache_of}
use quic_hop.Conn.Packet.{Addr, Packet}
use quic_hop.Conn.Read.{Receiver, Delivery, handle_packet}
use quic_hop.Conn.Read.Deliver.{Delivers}
use quic_hop.Conn.Read.Server.{serving, arrived}
use quic_hop.Conn.Read.Total.{IsReady}
use quic_hop.Conn.Write.{Sender, count_of}
use quic_hop.Conn.Conversation.Received.{
  Knows, Received, plain-Received, hidden-Received, first-Received,
}
use quic_hop.Conn.Network.{
  Frame, framed, all_framed, AllFit, AllShort, Arrival, copy_of, other_packet, carried, receive_all,
  transmit,
}
use quic_hop.Conn.Network.Sent.{Carries, AllCarry, send_all_carries, wire_at}
use quic_hop.Conn.Network.Elsewhere.{Passes, handle_packet-Passes}

-- Every number was sent, and every other packet is one of bytes from another address.
abbrev pub IsTraffic : Addr → ℕ → List Arrival → Type 0
IsTraffic source sent [] = Unit {0}
IsTraffic source sent (copy_of i ∷ arrivals) = (i < sent) × IsTraffic source sent arrivals
IsTraffic source sent (other_packet pkt ∷ arrivals) =
    (pkt.addr ≢ some source) × IsBytes pkt.payload × IsTraffic source sent arrivals

-- The first copy to arrive is of a packet that was counted within the first ten.
abbrev pub StartsInClear : ℕ → List Arrival → Type 0
StartsInClear count [] = Unit {0}
StartsInClear count (copy_of i ∷ arrivals) = count + i < 10
StartsInClear count (other_packet pkt ∷ arrivals) = StartsInClear count arrivals

module _ (buffer : List ℕ) (source : Addr) (cid : List ℕ) (frames : List Frame) where
  -- Each copy's delivery carries the packet of its number, under the client's address.
  abbrev pub AllFaithful : List Arrival → List Delivery → Type 0
  AllFaithful [] [] = Unit {0}
  AllFaithful [] (d ∷ ds) = ⊥
  AllFaithful (arrival ∷ arrivals) [] = ⊥
  AllFaithful (copy_of i ∷ arrivals) (d ∷ ds) =
      ((fr : Frame) × (get_elem? frames i ≡ some fr)
        × Delivers buffer (framed cid fr) (some source) d)
      × AllFaithful arrivals ds
  AllFaithful (other_packet pkt ∷ arrivals) (d ∷ ds) = AllFaithful arrivals ds

carried-copy :
    (source : Addr) (wires : List (List ℕ)) (i : ℕ) (wire : List ℕ) (arrivals : List Arrival)
    → get_elem? wires i ≡ some wire
    → carried source wires (copy_of i ∷ arrivals)
      ≡ arrived wire (some source) ∷ carried source wires arrivals
carried-copy source wires i wire arrivals e = rw (e, carried)

pub fit_at :
    (cid buffer : List ℕ) (frames : List Frame) (i : ℕ) (fr : Frame)
    → AllFit cid buffer frames
    → get_elem? frames i ≡ some fr
    → length (framed cid fr) ≤ length buffer
fit_at cid buffer [] i fr fit e = absurd (cc)
fit_at cid buffer (first ∷ frames) zero fr fit e = let same : first ≡ fr = cc in rw (sym same) fit.0
fit_at cid buffer (first ∷ frames) (suc i) fr fit e = fit_at cid buffer frames i fr fit.1 e

pub short_at :
    (frames : List Frame) (i : ℕ) (fr : Frame)
    → AllShort frames
    → get_elem? frames i ≡ some fr
    → bit_and fr.0 0x80 ≡ 0
short_at [] i fr short e = absurd (cc)
short_at (first ∷ frames) zero fr short e = let same : first ≡ fr = cc in rw (sym same) short.0
short_at (first ∷ frames) (suc i) fr short e = short_at frames i fr short.1 e

module _ (m : MathRand) (config : Config) (buffer : List ℕ) (source : Addr) (cid : List ℕ)
    (sized : length cid ≡ 16) (bytes : IsBytes cid) (nonzero : take 7 cid ≢ replicate 7 0)
    (moves : obfuscate m cid (get_uint16 (take 2 cid)) ≢ some cid) (room : 1 ≤ length buffer)
    (mine : CidCache) (valid : IsValid mine) (queue : List Packet) where
  abbrev Sees : ServerSessionMap → Frame → List ℕ → Type 0
  Sees sessions fr wire =
      (short : bit_and fr.0 0x80 ≡ 0) (fits : length (framed cid fr) ≤ length buffer)
      → Received m sessions mine queue buffer source fr.0 cid sized bytes short fr.1 fits wire

  received_known :
      (sessions : ServerSessionMap) (fr : Frame) (wire : List ℕ)
      → Carries m config cid sized bytes moves fr wire
      → Knows cid (cache_of sessions source)
      → Sees sessions fr wire
  received_known sessions fr wire (w, e, inl plain) k short fits =
      rw (e, plain)
        (plain-Received m sessions mine queue buffer source fr.0 cid sized bytes short fr.1 fits k)
  received_known sessions fr wire (w, e, inr (seed, small, sent, other)) k short fits = rw e (
      hidden-Received m sessions mine queue buffer source fr.0 cid sized bytes short fr.1 fits
        nonzero w seed small sent other k)

  after-IsReady :
      (sessions after : ServerSessionMap)
      → IsReady (serving sessions mine queue)
      → ((other : Addr) → IsValid (cache_of sessions other) → IsValid (cache_of after other))
      → IsReady (serving after mine queue)
  after-IsReady sessions after ready keeps = record {
    each_server = λ other. keeps other (ready.each_server other);
    client = ready.client;
  }

  module _ (frames : List Frame) (wires : List (List ℕ)) (fit : AllFit cid buffer frames)
      (shorts : AllShort frames) where
    abbrev Receives : ServerSessionMap → List Arrival → Type 0
    Receives sessions arrivals =
        (ds : List Delivery) × (r : Receiver) × (receive_all m buffer (serving sessions mine queue)
            (carried source wires arrivals)
          ≡ some (ds, r))
        × AllFaithful buffer source cid frames arrivals ds

    copy_step :
        (sessions : ServerSessionMap) (i : ℕ) (arrivals : List Arrival) (fr : Frame) (wire : List ℕ)
        → get_elem? frames i ≡ some fr
        → get_elem? wires i ≡ some wire
        → (short : bit_and fr.0 0x80 ≡ 0) (fits : length (framed cid fr) ≤ length buffer)
        → (r : Received m sessions mine queue buffer source fr.0 cid sized bytes short fr.1 fits
            wire)
        → Receives r.1 arrivals
        → Receives sessions (copy_of i ∷ arrivals)
    unfolding receive_all
    copy_step sessions i arrivals fr wire at sent short fits r later = (
      r.0 ∷ later.0,
      later.1,
      rw (carried-copy source wires i wire arrivals sent, r.2, later.2),
      ((fr, at, r.3), later.3),
    )

    other_step :
        (sessions : ServerSessionMap) (pkt : Packet) (arrivals : List Arrival)
        (ready : IsReady (serving sessions mine queue))
        → (p : Passes m sessions mine queue buffer source room ready
            (handle_packet m (serving sessions mine queue) buffer pkt))
        → Receives p.1 arrivals
        → Receives sessions (other_packet pkt ∷ arrivals)
    unfolding receive_all
    other_step sessions pkt arrivals ready p later =
        (p.0 ∷ later.0, later.1, rw (p.2, later.2), later.3)

    module _ (count : ℕ) (all : AllCarry m config cid sized bytes moves count frames wires) where
      known-Receives :
          (sessions : ServerSessionMap) (arrivals : List Arrival)
          → IsTraffic source (length frames) arrivals
          → IsReady (serving sessions mine queue)
          → Knows cid (cache_of sessions source)
          → Receives sessions arrivals
      unfolding receive_all
      known-Receives sessions [] traffic ready k = ([], _, refl, tt)
      known-Receives sessions (copy_of i ∷ arrivals) traffic ready k =
          let w = wire_at m config cid sized bytes moves i count frames wires all traffic.0 in
          let fits = fit_at cid buffer frames i w.0 fit w.2 in
          let short = short_at frames i w.0 shorts w.2 in
          let r = received_known sessions w.0 w.1 w.4 k short fits in
          let later =
            known-Receives r.1 arrivals traffic.1 (after-IsReady sessions r.1 ready r.5) r.4 in
          copy_step sessions i arrivals w.0 w.1 w.2 w.3 short fits r later
      known-Receives sessions (other_packet pkt ∷ arrivals) traffic ready k =
          let p =
            handle_packet-Passes m sessions mine queue buffer source room ready pkt traffic.0
              traffic.1 in
          other_step sessions pkt arrivals ready p
            (known-Receives p.1 arrivals traffic.2 p.3 (rw p.4 k))

      fresh-Receives :
          (sessions : ServerSessionMap) (arrivals : List Arrival)
          → IsTraffic source (length frames) arrivals
          → StartsInClear count arrivals
          → IsReady (serving sessions mine queue)
          → cache_of sessions source ≡ new_cid_cache
          → Receives sessions arrivals
      unfolding receive_all
      fresh-Receives sessions [] traffic clear ready fresh = ([], _, refl, tt)
      fresh-Receives sessions (copy_of i ∷ arrivals) traffic clear ready fresh =
          let w = wire_at m config cid sized bytes moves i count frames wires all traffic.0 in
          let fits = fit_at cid buffer frames i w.0 fit w.2 in
          let short = short_at frames i w.0 shorts w.2 in
          let r : Received m sessions mine queue buffer source (w.0.0) cid sized bytes short (w.0.1)
              fits w.1 =
            rw (w.5 clear) (
              first-Received m sessions mine queue buffer source (w.0.0) cid sized bytes short
                (w.0.1) fits fresh) in
          let later =
            known-Receives r.1 arrivals traffic.1 (after-IsReady sessions r.1 ready r.5) r.4 in
          copy_step sessions i arrivals w.0 w.1 w.2 w.3 short fits r later
      fresh-Receives sessions (other_packet pkt ∷ arrivals) traffic clear ready fresh =
          let p =
            handle_packet-Passes m sessions mine queue buffer source room ready pkt traffic.0
              traffic.1 in
          other_step sessions pkt arrivals ready p
            (fresh-Receives p.1 arrivals traffic.2 clear p.3 (p.4 ∙ fresh))

  -- A client sends short-header packets, with any first bytes of which the top bit is clear, under
  -- one CID of 16 bytes from an address that the server
  -- has no CID for. The network loses, repeats and reorders them, and packets of bytes from other
  -- addresses come in between, on a server whose caches are valid. If the first of the client's
  -- packets to arrive is one that was counted within its CID's first ten, then no call panics, and
  -- each of them that arrives is delivered with the bytes that the client's QUIC stack wrote,
  -- hidden on the way or not. The CID's first 7 bytes are not seven zeros, the seed that its first
  -- two bytes spell does not hide it as itself, and every packet fits the buffer, which is not
  -- empty.
  pub transmit_faithful :
      (s : Sender m) (sessions : ServerSessionMap) (frames : List Frame) (arrivals : List Arrival)
      → AllShort frames
      → AllFit cid buffer frames
      → IsTraffic source (length frames) arrivals
      → StartsInClear (count_of s.tx_counts cid) arrivals
      → IsReady (serving sessions mine queue)
      → cache_of sessions source ≡ new_cid_cache
      → (ds : List Delivery) × (transmit m config buffer source s
            (serving sessions mine queue)
            (all_framed cid frames)
            arrivals
          ≡ some ds)
        × AllFaithful buffer source cid frames arrivals ds
  unfolding transmit
  transmit_faithful s sessions frames arrivals shorts fit traffic clear ready fresh =
      let sent = send_all_carries m config cid sized bytes moves s frames shorts in
      let got =
        fresh-Receives frames sent.0 fit shorts (count_of s.tx_counts cid) sent.3 sessions arrivals
          traffic clear ready fresh in
      (got.0, rw (sent.2, got.2), got.3)

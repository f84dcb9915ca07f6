-- ===== src/Conn/Network/Back.antt =====
-- Whatever the network does to a server's packets, and from whichever ports they come, what arrives of
-- them is delivered as it was written, once the client has seen the CID in the clear.
use quic_hop.Base.{
  ℕ, ◌+◌, ◌≤◌, ◌<◌, ◌≡◌, refl, ◌≢◌, List, [], ◌∷◌, Option, some, length, bit_and, take, replicate,
  inl, inr, get_elem?,
}
use quic_hop.Base.BitArray.{IsBytes}
use quic_hop.Config.{Config}
use quic_hop.Algo.Rng.{MathRand}
use quic_hop.Algo.Codec.{get_uint16, obfuscate}
use quic_hop.Session.{CidCache, ServerSessionMap, new_cid_cache, add_real}
use quic_hop.Session.Invariant.{new_cid_cache-IsValid}
use quic_hop.Conn.Packet.{Addr, Packet, fake_addr}
use quic_hop.Conn.Read.{Receiver, Delivery, deliver, handle_packet}
use quic_hop.Conn.Read.Deliver.{Delivers, deliver-Delivers}
use quic_hop.Conn.Read.Restore.{resolve_known, resolve_new, wire_cid_lem}
use quic_hop.Conn.Read.Server.{dialing, arrived, handle_packet_client, handle_packet_reaches}
use quic_hop.Conn.Write.{Sender, count_of}
use quic_hop.Conn.Conversation.Received.{
  Knows, first-Knows, Knows-known, Knows-strange, Knows-only, new_cid_cache_empty,
  new_cid_cache_unindexed,
}
use quic_hop.Conn.Network.{
  Frame, framed, all_framed, AllFit, AllShort, carried_from, receive_all, transmit_back,
}
use quic_hop.Conn.Network.Sent.{Carries, AllCarry, send_all_carries, wire_at}
use quic_hop.Conn.Network.Faithful.{fit_at, short_at}

-- Every number was sent.
abbrev pub AllSent : ℕ → List (ℕ × Option Addr) → Type 0
AllSent sent [] = Unit {0}
AllSent sent ((i, origin) ∷ arrivals) = (i < sent) × AllSent sent arrivals

-- The first packet to arrive is one that was counted within the first ten.
abbrev pub BeginsInClear : ℕ → List (ℕ × Option Addr) → Type 0
BeginsInClear count [] = Unit {0}
BeginsInClear count ((i, origin) ∷ arrivals) = count + i < 10

module _ (buffer cid : List ℕ) (frames : List Frame) where
  -- Each delivery carries the packet of its number, under the one fixed address.
  abbrev pub AllUnmoved : List (ℕ × Option Addr) → List Delivery → Type 0
  AllUnmoved [] [] = Unit {0}
  AllUnmoved [] (d ∷ ds) = ⊥
  AllUnmoved (arrival ∷ arrivals) [] = ⊥
  AllUnmoved ((i, origin) ∷ arrivals) (d ∷ ds) =
      ((fr : Frame) × (get_elem? frames i ≡ some fr)
        × Delivers buffer (framed cid fr) (some fake_addr) d)
      × AllUnmoved arrivals ds

carried_from-copy :
    (wires : List (List ℕ)) (i : ℕ) (origin : Option Addr) (wire : List ℕ)
    (arrivals : List (ℕ × Option Addr))
    → get_elem? wires i ≡ some wire
    → carried_from wires ((i, origin) ∷ arrivals)
      ≡ arrived wire origin ∷ carried_from wires arrivals
carried_from-copy wires i origin wire arrivals e = rw (e, carried_from)

module _ (m : MathRand) (config : Config) (buffer cid : List ℕ) (sized : length cid ≡ 16)
    (bytes : IsBytes cid) (nonzero : take 7 cid ≢ replicate 7 0)
    (moves : obfuscate m cid (get_uint16 (take 2 cid)) ≢ some cid) (sessions : ServerSessionMap)
    (queue : List Packet) where
  abbrev Reaches : CidCache → Frame → List ℕ → Option Addr → Type 0
  Reaches mine fr wire origin =
      (d : Delivery) × (after : CidCache) × (handle_packet m (dialing sessions mine queue) buffer
          (arrived wire origin)
        ≡ some (d, dialing sessions after queue))
      × Delivers buffer (framed cid fr) (some fake_addr) d
      × Knows cid after

  module _ (mine : CidCache) (fr : Frame) (origin : Option Addr) (short : bit_and fr.0 0x80 ≡ 0)
      (room : length (framed cid fr) ≤ length buffer) where
    plain-Reaches : Knows cid mine → Reaches mine fr (framed cid fr) origin
    plain-Reaches k = (
      deliver buffer (framed cid fr) (some fake_addr),
      mine,
      handle_packet_reaches m sessions mine queue buffer fr.0 cid cid fr.1 0 fake_addr origin _ _
          sized short
          (resolve_known m mine k.valid cid sized bytes buffer (framed cid fr) (some fake_addr)
            (wire_cid_lem fr.0 cid fr.1 sized) (Knows-known cid mine k)),
      deliver-Delivers buffer (framed cid fr) (some fake_addr) room,
      k,
    )

    first-Reaches : mine ≡ new_cid_cache → Reaches mine fr (framed cid fr) origin
    first-Reaches fresh = rw fresh (
      deliver buffer (framed cid fr) (some fake_addr),
      add_real new_cid_cache cid,
      handle_packet_reaches m sessions new_cid_cache queue buffer fr.0 cid cid fr.1 0 fake_addr
          origin _ _ sized short
          (resolve_new m new_cid_cache new_cid_cache-IsValid cid sized bytes buffer (framed cid fr)
            (some fake_addr) (wire_cid_lem fr.0 cid fr.1 sized) (new_cid_cache_empty cid)
            new_cid_cache_unindexed),
      deliver-Delivers buffer (framed cid fr) (some fake_addr) room,
      first-Knows cid bytes,
    )

    known-Reaches :
        (wire : List ℕ)
        → Carries m config cid sized bytes moves fr wire
        → Knows cid mine
        → Reaches mine fr wire origin
    known-Reaches wire (w, e, inl plain) k = rw (e, plain) (plain-Reaches k)
    known-Reaches wire (w, e, inr (seed, small, sent, other)) k =
        let h =
          handle_packet_client m sessions mine queue buffer fr.0 cid w fr.1 seed fake_addr origin
            k.valid sized bytes small short sent (Knows-known cid mine k)
            (Knows-strange cid w mine k other) (Knows-only cid mine k) nonzero room in
        rw e (h.0, mine, h.1, h.2, k)

  module _ (frames : List Frame) (wires : List (List ℕ)) (fit : AllFit cid buffer frames)
      (shorts : AllShort frames) where
    abbrev Returns : CidCache → List (ℕ × Option Addr) → Type 0
    Returns mine arrivals =
        (ds : List Delivery) × (r : Receiver) × (receive_all m buffer (dialing sessions mine queue)
            (carried_from wires arrivals)
          ≡ some (ds, r))
        × AllUnmoved buffer cid frames arrivals ds

    copy_back :
        (mine : CidCache) (i : ℕ) (origin : Option Addr) (arrivals : List (ℕ × Option Addr))
        (fr : Frame) (wire : List ℕ)
        → get_elem? frames i ≡ some fr
        → get_elem? wires i ≡ some wire
        → (r : Reaches mine fr wire origin) → Returns r.1 arrivals
        → Returns mine ((i, origin) ∷ arrivals)
    unfolding receive_all
    copy_back mine i origin arrivals fr wire at sent r later = (
      r.0 ∷ later.0,
      later.1,
      rw (carried_from-copy wires i origin wire arrivals sent, r.2, later.2),
      ((fr, at, r.3), later.3),
    )

    module _ (count : ℕ) (all : AllCarry m config cid sized bytes moves count frames wires) where
      known-Returns :
          (mine : CidCache) (arrivals : List (ℕ × Option Addr))
          → AllSent (length frames) arrivals
          → Knows cid mine
          → Returns mine arrivals
      unfolding receive_all
      known-Returns mine [] sent k = ([], _, refl, tt)
      known-Returns mine ((i, origin) ∷ arrivals) sent k =
          let w = wire_at m config cid sized bytes moves i count frames wires all sent.0 in
          let fits = fit_at cid buffer frames i w.0 fit w.2 in
          let short = short_at frames i w.0 shorts w.2 in
          let r = known-Reaches mine w.0 origin short fits w.1 w.4 k in
          copy_back mine i origin arrivals w.0 w.1 w.2 w.3 r (known-Returns r.1 arrivals sent.1 r.4)

      fresh-Returns :
          (arrivals : List (ℕ × Option Addr))
          → AllSent (length frames) arrivals
          → BeginsInClear count arrivals
          → Returns new_cid_cache arrivals
      unfolding receive_all
      fresh-Returns [] sent clear = ([], _, refl, tt)
      fresh-Returns ((i, origin) ∷ arrivals) sent clear =
          let w = wire_at m config cid sized bytes moves i count frames wires all sent.0 in
          let fits = fit_at cid buffer frames i w.0 fit w.2 in
          let short = short_at frames i w.0 shorts w.2 in
          let r : Reaches new_cid_cache w.0 w.1 origin =
            rw (w.5 clear) (first-Reaches new_cid_cache w.0 origin short fits refl) in
          copy_back new_cid_cache i origin arrivals w.0 w.1 w.2 w.3 r
            (known-Returns r.1 arrivals sent.1 r.4)

  -- A server sends short-header packets, with any first bytes of which the top bit is clear, under one
  -- CID of 16 bytes to a client that knows no CID yet,
  -- from any ports; the network loses, repeats and reorders them. If the first to arrive is one
  -- that was counted within its CID's first ten, then no call panics, and each that arrives is
  -- delivered with the bytes that the server's QUIC stack wrote, hidden on the way or not, and
  -- always under the same fixed address. The CID's first 7 bytes are not seven zeros, the seed that
  -- its first two bytes spell does not hide it as itself, and every packet fits the buffer.
  pub transmit_back_unmoved :
      (s : Sender m) (frames : List Frame) (arrivals : List (ℕ × Option Addr))
      → AllShort frames
      → AllFit cid buffer frames
      → AllSent (length frames) arrivals
      → BeginsInClear (count_of s.tx_counts cid) arrivals
      → (ds : List Delivery) × (transmit_back m config buffer s
            (dialing sessions new_cid_cache queue)
            (all_framed cid frames)
            arrivals
          ≡ some ds)
        × AllUnmoved buffer cid frames arrivals ds
  unfolding transmit_back
  transmit_back_unmoved s frames arrivals shorts fit sent clear =
      let all = send_all_carries m config cid sized bytes moves s frames shorts in
      let got =
        fresh-Returns frames all.0 fit shorts (count_of s.tx_counts cid) all.3 arrivals sent
          clear in
      (got.0, rw (all.2, got.2), got.3)

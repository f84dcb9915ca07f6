-- ===== src/Conn/Conversation/Delivered.antt =====
-- A client's packets of one connection reach the server's QUIC stack as they left the client's.
use quic_hop.Base.{
  ℕ, ◌+◌, ◌≤◌, ◌<◌, ◌^◌, ◌≡◌, refl, ◌≢◌, List, [], ◌∷◌, ◌++◌, some, arith, length, bit_and, take,
  replicate, true, false, inl, inr, Bool-cases,
}
use quic_hop.Base.BitArray.{IsBytes}
use quic_hop.Base.Assoc.{bytes_keys}
use quic_hop.Config.{Config}
use quic_hop.Algo.Rng.{MathRand}
use quic_hop.Algo.Codec.{get_uint16, obfuscate}
use quic_hop.Algo.Codec.Laws.{deobfuscate-obfuscate}
use quic_hop.Session.{CidCache, ServerSessionMap, new_cid_cache}
use quic_hop.Session.Servers.{cache_of}
use quic_hop.Conn.Packet.{Addr, Packet}
use quic_hop.Conn.Read.{Delivery, handle_packet}
use quic_hop.Conn.Read.Deliver.{Delivers}
use quic_hop.Conn.Read.Server.{serving, arrived}
use quic_hop.Conn.Write.{Sender, count_of, hides, prepare}
use quic_hop.Conn.Write.Hide.{counted, reseeded, next_seed, prepare_plain, prepare_hidden}
use quic_hop.Conn.Conversation.{converse}
use quic_hop.Conn.Conversation.Received.{
  Knows, strange, plain-Received, hidden-Received, first-Received,
}

pub unhidden : (config : Config) (count : ℕ) → count < 10 → hides config (count + 1) ≡ false
unfolding hides
unhidden config count h = ground arith

module _ (head : ℕ) (cid : List ℕ) where
  abbrev pub packets : List (List ℕ) → List (List ℕ)
  packets [] = []
  packets (rest ∷ rests) = (head ∷ cid ++ rest) ∷ packets rests

module _ (buffer : List ℕ) (head : ℕ) (cid : List ℕ) where
  abbrev pub AllFit : List (List ℕ) → Type 0
  AllFit [] = Unit {0}
  AllFit (rest ∷ rests) = (length (head ∷ cid ++ rest) ≤ length buffer) × AllFit rests

module _ (buffer : List ℕ) (source : Addr) (head : ℕ) (cid : List ℕ) where
  -- Each packet, by its rest behind the CID, with its delivery.
  abbrev pub AllDelivered : List (List ℕ) → List Delivery → Type 0
  AllDelivered [] [] = Unit {0}
  AllDelivered [] (d ∷ ds) = ⊥
  AllDelivered (rest ∷ rests) [] = ⊥
  AllDelivered (rest ∷ rests) (d ∷ ds) =
      Delivers buffer (head ∷ cid ++ rest) (some source) d × AllDelivered rests ds

module _ (m : MathRand) (config : Config) (buffer : List ℕ) (source : Addr) (head : ℕ)
    (cid : List ℕ) (sized : length cid ≡ 16) (bytes : IsBytes cid) (short : bit_and head 0x80 ≡ 0)
    (nonzero : take 7 cid ≢ replicate 7 0)
    (moves : obfuscate m cid (get_uint16 (take 2 cid)) ≢ some cid) where
  -- One packet arrived whole, and the server knows the CID afterwards.
  abbrev Exchanged : Sender m → ServerSessionMap → CidCache → List Packet → List ℕ → Type 0
  Exchanged s sessions mine queue rest =
      (sent : List ℕ) × (s' : Sender m) × (d : Delivery) × (after : ServerSessionMap) × (prepare m
          config s (head ∷ cid ++ rest)
        ≡ some (sent, s'))
      × (handle_packet m (serving sessions mine queue) buffer (arrived sent (some source))
          ≡ some (d, serving after mine queue))
      × Delivers buffer (head ∷ cid ++ rest) (some source) d
      × Knows cid (cache_of after source)

  module _ (s : Sender m) (sessions : ServerSessionMap) (mine : CidCache) (queue : List Packet)
      (rest : List ℕ) (room : length (head ∷ cid ++ rest) ≤ length buffer) where
    exchange_plain :
        hides config (count_of s.tx_counts cid + 1) ≡ false
        → Knows cid (cache_of sessions source)
        → Exchanged s sessions mine queue rest
    exchange_plain plain k =
        let r =
          plain-Received m sessions mine queue buffer source head cid sized bytes short rest room
            k in
        (
          head ∷ cid ++ rest,
          counted m s cid,
          r.0,
          r.1,
          prepare_plain m config s head cid rest sized short plain,
          r.2,
          r.3,
          r.4,
        )

    exchange_hidden :
        hides config (count_of s.tx_counts cid + 1) ≡ true
        → Knows cid (cache_of sessions source)
        → Exchanged s sessions mine queue rest
    exchange_hidden hide k =
        let small : next_seed m s < 2 ^ 16 = omega arith in
        let o = deobfuscate-obfuscate m cid (next_seed m s) sized bytes small in
        let other : o.0 ≢ cid = strange m cid moves (next_seed m s) o.0 small o.3 o.1 in
        let r =
          hidden-Received m sessions mine queue buffer source head cid sized bytes short rest room
            nonzero o.0 (next_seed m s) small o.1 other k in
        (
          head ∷ o.0 ++ rest,
          reseeded m s cid,
          r.0,
          r.1,
          prepare_hidden m config s head cid rest sized short o.0 hide o.1,
          r.2,
          r.3,
          r.4,
        )

    exchange_known : Knows cid (cache_of sessions source) → Exchanged s sessions mine queue rest
    exchange_known k = elim (Bool-cases (hides config (count_of s.tx_counts cid + 1))) [
      | inl hide ↦ exchange_hidden hide k
      | inr plain ↦ exchange_plain plain k
    ]

    exchange_first :
        count_of s.tx_counts cid < 10
        → cache_of sessions source ≡ new_cid_cache
        → Exchanged s sessions mine queue rest
    exchange_first early fresh =
        let r =
          first-Received m sessions mine queue buffer source head cid sized bytes short rest room
            fresh in
        (
          head ∷ cid ++ rest,
          counted m s cid,
          r.0,
          r.1,
          prepare_plain m config s head cid rest sized short
              (unhidden config (count_of s.tx_counts cid) early),
          r.2,
          r.3,
          r.4,
        )

  module _ (mine : CidCache) (queue : List Packet) where
    abbrev Converses : Sender m → ServerSessionMap → List (List ℕ) → Type 0
    Converses s sessions rests =
        (ds : List Delivery) × (converse m config buffer source s (serving sessions mine queue)
            (packets head cid rests)
          ≡ some ds)
        × AllDelivered buffer source head cid rests ds

    converse_step :
        (s : Sender m) (sessions : ServerSessionMap) (rest : List ℕ) (rests : List (List ℕ))
        → (e : Exchanged s sessions mine queue rest) → Converses e.1 e.3 rests
        → Converses s sessions (rest ∷ rests)
    unfolding converse
    converse_step s sessions rest rests e later =
        (e.2 ∷ later.0, rw (e.4, e.5, later.1), (e.6, later.2))

    converse_known :
        (s : Sender m) (sessions : ServerSessionMap) (rests : List (List ℕ))
        → AllFit buffer head cid rests
        → Knows cid (cache_of sessions source)
        → Converses s sessions rests
    unfolding converse
    converse_known s sessions [] fit k = ([], refl, tt)
    converse_known s sessions (rest ∷ rests) fit k =
        let e = exchange_known s sessions mine queue rest fit.0 k in
        converse_step s sessions rest rests e (converse_known e.1 e.3 rests fit.1 e.7)

    -- A client sends short-header packets under one CID of 16 bytes, which the sender has counted
    -- fewer than ten times, from an address that the server has no CID for: every packet of the
    -- conversation is delivered with the bytes that the client's QUIC stack wrote, in order,
    -- hidden on the way or not. The CID's first 7 bytes are not seven zeros, the seed that its
    -- first two bytes spell does not hide it as itself, and every packet fits the buffer.
    pub converse_delivered :
        (s : Sender m) (sessions : ServerSessionMap) (rests : List (List ℕ))
        → count_of s.tx_counts cid < 10
        → cache_of sessions source ≡ new_cid_cache
        → AllFit buffer head cid rests
        → (ds : List Delivery) × (converse m config buffer source s
              (serving sessions mine queue)
              (packets head cid rests)
            ≡ some ds)
          × AllDelivered buffer source head cid rests ds
    unfolding converse
    converse_delivered s sessions [] early fresh fit = ([], refl, tt)
    converse_delivered s sessions (rest ∷ rests) early fresh fit =
        let e = exchange_first s sessions mine queue rest fit.0 early fresh in
        converse_step s sessions rest rests e (converse_known e.1 e.3 rests fit.1 e.7)

-- ===== src/Conn/Network/Rebound.antt =====
-- A hidden packet from an address that the server has no CID for, as after the client's address
-- changed: the server cannot restore its CID.
use quic_hop.Base.{
  ℕ, length-append, ◌+◌, ◌≤◌, ◌<◌, ◌^◌, ◌≡◌, ◌≢◌, List, ◌∷◌, ◌++◌, some, arith, length, bit_and,
  take, true,
}
use quic_hop.Base.BitArray.{IsBytes}
use quic_hop.Config.{Config}
use quic_hop.Algo.Rng.{MathRand}
use quic_hop.Algo.Codec.{get_uint16, obfuscate}
use quic_hop.Algo.Codec.Laws.{deobfuscate-obfuscate, obfuscate-IsBytes}
use quic_hop.Session.{CidCache, ServerSessionMap, new_cid_cache}
use quic_hop.Session.Servers.{cache_of}
use quic_hop.Conn.Packet.{Addr, Packet}
use quic_hop.Conn.Read.{Delivery, handle_packet}
use quic_hop.Conn.Read.Deliver.{Delivers}
use quic_hop.Conn.Read.Server.{serving, arrived}
use quic_hop.Conn.Write.{Sender, count_of, hides, prepare}
use quic_hop.Conn.Write.Hide.{reseeded, next_seed, prepare_hidden}
use quic_hop.Conn.Conversation.Received.{Knows, strange, first-Received}

hidden_late :
    (config : Config) (count : ℕ)
    → config.cid_obfuscation_enabled ≡ true
    → 10 ≤ count
    → hides config (count + 1) ≡ true
unfolding hides
hidden_late config count on late = rw on (ground arith)

module _ (m : MathRand) (config : Config) (mine : CidCache) (queue : List Packet) (buffer : List ℕ)
    (head : ℕ) (cid : List ℕ) (sized : length cid ≡ 16) (bytes : IsBytes cid)
    (short : bit_and head 0x80 ≡ 0)
    (moves : obfuscate m cid (get_uint16 (take 2 cid)) ≢ some cid) where
  -- With hiding on, a client's packet that its CID's first ten came before is sent under another
  -- CID. When it comes from an address that the server has no CID for, the server hands it on
  -- under that other CID and not under its own, and takes the other CID for a real one, the only
  -- one of the address. The CID has 16 bytes, the seed that its first two bytes spell does not
  -- hide it as itself, and the packet fits the buffer.
  pub rebound_misdelivered :
      (s : Sender m) (sessions : ServerSessionMap) (rest : List ℕ) (source : Addr)
      → config.cid_obfuscation_enabled ≡ true
      → 10 ≤ count_of s.tx_counts cid
      → cache_of sessions source ≡ new_cid_cache
      → length (head ∷ cid ++ rest) ≤ length buffer
      → (hidden : List ℕ) × (s' : Sender m) × (d : Delivery) × (after : ServerSessionMap) × (prepare
            m config s
            (head ∷ cid ++ rest)
          ≡ some (head ∷ hidden ++ rest, s'))
        × (hidden ≢ cid)
        × (handle_packet m
              (serving sessions mine queue)
              buffer
              (arrived (head ∷ hidden ++ rest) (some source))
            ≡ some (d, serving after mine queue))
        × Delivers buffer (head ∷ hidden ++ rest) (some source) d
        × Knows hidden (cache_of after source)
  rebound_misdelivered s sessions rest source on late fresh room =
      let small : next_seed m s < 2 ^ 16 = omega arith in
      let o = deobfuscate-obfuscate m cid (next_seed m s) sized bytes small in
      let b = obfuscate-IsBytes m cid o.0 (next_seed m s) sized small o.1 in
      let fits : length (head ∷ o.0 ++ rest) ≤ length buffer =
        omega (arith, room, length-append cid rest, length-append o.0 rest, b.0, sized) in
      let r =
        first-Received m sessions mine queue buffer source head o.0 b.0 b.1 short rest fits fresh in
      (
        o.0,
        reseeded m s cid,
        r.0,
        r.1,
        prepare_hidden m config s head cid rest sized short o.0
            (hidden_late config (count_of s.tx_counts cid) on late) o.1,
        strange m cid moves (next_seed m s) o.0 small o.3 o.1,
        r.2,
        r.3,
        r.4,
      )

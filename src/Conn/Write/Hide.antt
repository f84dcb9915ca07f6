-- ===== src/Conn/Write/Hide.antt =====
-- What `WriteTo` sends, and how it counts.
use quic_hop.Base.{
  ℕ, ◌+◌, ◌≡◌, List, ◌∷◌, ◌++◌, some, arith, length, bit_and, u16, length-append, drop-append, true,
  false, if◌then◌else◌,
}
use quic_hop.Base.Assoc.{insert, lookup-insert, bytes_keys, bytes_beq}
use quic_hop.Config.{Config}
use quic_hop.Algo.Rng.{MathRand}
use quic_hop.Algo.Codec.{obfuscate}
use quic_hop.Conn.Packet.{is_long_header}
use quic_hop.Conn.Read.Restore.{wire_cid_lem}
use quic_hop.Conn.Write.{Sender, count_of, carries_cid, hides, hide_cid, prepare_counted, prepare}

-- The sender after it counted one more packet of a CID.
abbrev pub counted : (m : MathRand) → Sender m → List ℕ → Sender m
counted m s cid = record s { tx_counts = insert cid (count_of s.tx_counts cid + 1) s.tx_counts }

-- The seed that the sender's generator gives next.
abbrev pub next_seed : (m : MathRand) → Sender m → ℕ
next_seed m s = u16 (m.uint32 s.obf_rng).0

abbrev pub reseeded : (m : MathRand) → Sender m → List ℕ → Sender m
reseeded m s cid = record (counted m s cid) { obf_rng = (m.uint32 s.obf_rng).1 }

-- A count is one more for its own CID, and the same for any other.
pub count_of-counted :
    (m : MathRand) (s : Sender m) (cid other : List ℕ)
    → count_of (counted m s cid).tx_counts other
      ≡ (if bytes_beq cid other then count_of s.tx_counts cid + 1 else count_of s.tx_counts other)
unfolding count_of
count_of-counted m s cid other =
    ground (arith, lookup-insert cid other (count_of s.tx_counts cid + 1) s.tx_counts)

module _ (m : MathRand) (config : Config) (s : Sender m) (head : ℕ) (cid rest : List ℕ)
    (sized : length cid ≡ 16) (short : bit_and head 0x80 ≡ 0) where
  carries : carries_cid m (head ∷ cid ++ rest) ≡ true
  unfolding carries_cid is_long_header
  carries = ground (arith, short, length-append cid rest)

  -- A packet that is not to be hidden goes out as it is, counted.
  pub prepare_plain :
      hides config (count_of s.tx_counts cid + 1) ≡ false
      → prepare m config s (head ∷ cid ++ rest) ≡ some (head ∷ cid ++ rest, counted m s cid)
  unfolding prepare
  prepare_plain plain = rw (carries, wire_cid_lem head cid rest sized, plain)

  hide_cid_lem :
      (wire : List ℕ) (seed : ℕ)
      → obfuscate m cid seed ≡ some wire
      → hide_cid m (head ∷ cid ++ rest) seed ≡ some (head ∷ wire ++ rest)
  unfolding hide_cid
  hide_cid_lem wire seed sent =
      rw (wire_cid_lem head cid rest sized, sent, drop-append cid rest 16 sized)

  -- A packet that is to be hidden goes out with its 16 CID bytes replaced, and nothing else.
  pub prepare_hidden :
      (wire : List ℕ)
      → hides config (count_of s.tx_counts cid + 1) ≡ true
      → obfuscate m cid (next_seed m s) ≡ some wire
      → prepare m config s (head ∷ cid ++ rest) ≡ some (head ∷ wire ++ rest, reseeded m s cid)
  unfolding prepare prepare_counted
  prepare_hidden wire hide sent =
      rw (carries, wire_cid_lem head cid rest sized, hide, hide_cid_lem wire (next_seed m s) sent)

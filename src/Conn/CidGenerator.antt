-- ===== src/Conn/CidGenerator.antt =====
-- pkg/magic/tls.go: `FixedBytesGenerator`, which gives quic-go the CIDs of a connection.
use quic_hop.Base.{
  ℕ, ◌<◌, ◌≤◌, ◌^◌, ◌≡◌, refl, List, ◌++◌, some, arith, length, take, replicate, length-replicate,
}
use quic_hop.Base.BitArray.{IsBytes}
use quic_hop.Config.{fixed_cid_len}
use quic_hop.Algo.Rng.{MathRand}
use quic_hop.Algo.Codec.{obfuscate, deobfuscate, put_uint16}
use quic_hop.Algo.Codec.Laws.{deobfuscate-obfuscate}

-- What Go's crypto/rand and quic-go document: `rand.Read` fills a slice, and
-- `ConnectionIDFromBytes` copies 20 bytes or fewer.
pub record CidLibrary : Type 1 where
  pub Source : Type 0
  pub read : List ℕ → Source → List ℕ × Source
  pub read_fills :
      (b : List ℕ) (r : Source) → (length (read b r).0 ≡ length b) × IsBytes (read b r).0
  pub connection_id_from_bytes : List ℕ → List ℕ
  pub copies : (b : List ℕ) → length b ≤ 20 → connection_id_from_bytes b ≡ b

pub record FixedBytesGenerator : Type 0 where
  pub len : ℕ

-- The generator of both programs.
abbrev pub cid_generator : FixedBytesGenerator
cid_generator = record { len = fixed_cid_len }

module _ (lib : CidLibrary) where
  unfoldable pub generate_connection_id : FixedBytesGenerator → lib.Source → List ℕ × lib.Source
  generate_connection_id g r =
      let (b, r') = lib.read (replicate g.len 0) r in (lib.connection_id_from_bytes b, r')

  abbrev pub connection_id_len : FixedBytesGenerator → ℕ
  connection_id_len g = g.len

  generated_lem :
      (g : FixedBytesGenerator) (r : lib.Source)
      → g.len ≤ 20
      → (length (generate_connection_id g r).0 ≡ connection_id_len g)
        × IsBytes (generate_connection_id g r).0
  unfolding generate_connection_id
  generated_lem g r few =
      let filled = lib.read_fills (replicate g.len 0) r in
      let size : length (lib.read (replicate g.len 0) r).0 ≡ g.len =
        omega (arith, filled.0, length-replicate {A = ℕ} g.len 0) in
      let kept = lib.copies (lib.read (replicate g.len 0) r).0 (omega (arith, size, few)) in
      (rw kept size, rw kept (filled.1))

  -- Every CID that the programs' generator makes can be hidden, under every seed of 16 bits: it has
  -- the length that the codec asks for, the hidden CID has the same length and spells the seed, and
  -- `Deobfuscate` gets the first 7 bytes back.
  pub generated_cids_hide :
      (m : MathRand) (r : lib.Source) (seed : ℕ)
      → seed < 2 ^ 16
      → let cid = (generate_connection_id cid_generator r).0 in
        (length cid ≡ connection_id_len cid_generator)
        × ((wire : List ℕ) × (obfuscate m cid seed ≡ some wire)
            × (length wire ≡ length cid)
            × (take 2 wire ≡ put_uint16 seed)
            × (deobfuscate m wire ≡ some (take 7 cid ++ replicate 9 0)))
  generated_cids_hide m r seed small =
      let g = generated_lem cid_generator r (omega arith) in
      let o =
        deobfuscate-obfuscate m (generate_connection_id cid_generator r).0 seed g.0 g.1 small in
      (g.0, (o.0, o.1, rw (o.2, g.0) refl, o.3, o.4))

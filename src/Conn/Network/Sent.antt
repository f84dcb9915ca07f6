-- ===== src/Conn/Network/Sent.antt =====
-- The packets that a client sends under one CID.
use quic_hop.Base.{
  ℕ, zero, suc, sym, take, ◌+◌, ◌<◌, ◌^◌, ◌≡◌, refl, ◌∙◌, ◌≢◌, List, [], ◌∷◌, ◌++◌, some, arith,
  length, bit_and, ◌⊎◌, inl, inr, Bool-cases, get_elem?,
}
use quic_hop.Base.BitArray.{IsBytes}
use quic_hop.Base.Assoc.{bytes_beq_iff}
use quic_hop.Config.{Config}
use quic_hop.Algo.Rng.{MathRand}
use quic_hop.Algo.Codec.{obfuscate, get_uint16}
use quic_hop.Algo.Codec.Laws.{deobfuscate-obfuscate}
use quic_hop.Conn.Write.{Sender, count_of, hides, prepare}
use quic_hop.Conn.Write.Hide.{
  counted, reseeded, next_seed, prepare_plain, prepare_hidden, count_of-counted,
}
use quic_hop.Conn.Conversation.Received.{strange}
use quic_hop.Conn.Conversation.Delivered.{unhidden}
use quic_hop.Conn.Network.{Frame, framed, all_framed, AllShort, send_all}

module _ (m : MathRand) (config : Config) (cid : List ℕ) (sized : length cid ≡ 16)
    (bytes : IsBytes cid) (moves : obfuscate m cid (get_uint16 (take 2 cid)) ≢ some cid) where
  -- The CID hidden under some seed, as something else.
  abbrev pub Hidden : List ℕ → Type 0
  Hidden wire = (seed : ℕ) × (seed < 2 ^ 16) × (obfuscate m cid seed ≡ some wire) × (wire ≢ cid)

  -- The packet of a frame, its CID as it is or hidden.
  abbrev pub Carries : Frame → List ℕ → Type 0
  Carries fr wire = (w : List ℕ) × (wire ≡ fr.0 ∷ w ++ fr.1) × ((w ≡ cid) ⊎ Hidden w)

  abbrev pub AllCarry : ℕ → List Frame → List (List ℕ) → Type 0
  AllCarry count [] [] = Unit {0}
  AllCarry count [] (wire ∷ wires) = ⊥
  AllCarry count (fr ∷ frs) [] = ⊥
  AllCarry count (fr ∷ frs) (wire ∷ wires) =
      Carries fr wire × (count < 10 → wire ≡ framed cid fr) × AllCarry (count + 1) frs wires

  count_of_self :
      (s : Sender m) → count_of (counted m s cid).tx_counts cid ≡ count_of s.tx_counts cid + 1
  count_of_self s = count_of-counted m s cid cid ∙ rw ((bytes_beq_iff cid cid).1 refl)

  abbrev Sends : Sender m → Frame → Type 0
  Sends s fr =
      (wire : List ℕ) × (s' : Sender m) × (prepare m config s (framed cid fr) ≡ some (wire, s'))
      × Carries fr wire
      × (count_of s.tx_counts cid < 10 → wire ≡ framed cid fr)
      × (count_of s'.tx_counts cid ≡ count_of s.tx_counts cid + 1)

  prepare_carries : (s : Sender m) (fr : Frame) → bit_and fr.0 0x80 ≡ 0 → Sends s fr
  prepare_carries s fr short = elim (Bool-cases (hides config (count_of s.tx_counts cid + 1))) [
    | inr plain ↦ (
      framed cid fr,
      counted m s cid,
      prepare_plain m config s fr.0 cid fr.1 sized short plain,
      (cid, refl, inl refl),
      (λ early. refl),
      count_of_self s,
    )
    | inl hide ↦
        let small : next_seed m s < 2 ^ 16 = omega arith in
        let o = deobfuscate-obfuscate m cid (next_seed m s) sized bytes small in
        let other : o.0 ≢ cid = strange m cid moves (next_seed m s) o.0 small o.3 o.1 in
        (
          fr.0 ∷ o.0 ++ fr.1,
          reseeded m s cid,
          prepare_hidden m config s fr.0 cid fr.1 sized short o.0 hide o.1,
          (o.0, refl, inr (next_seed m s, small, o.1, other)),
          (λ early. absurd (let plain = unhidden config (count_of s.tx_counts cid) early in cc)),
          count_of_self s,
        )
  ]

  pub send_all_carries :
      (s : Sender m) (frs : List Frame)
      → AllShort frs
      → (wires : List (List ℕ)) × (s' : Sender m) × (send_all m config s (all_framed cid frs)
          ≡ some (wires, s'))
        × AllCarry (count_of s.tx_counts cid) frs wires
  unfolding send_all
  send_all_carries s [] short = ([], s, refl, tt)
  send_all_carries s (fr ∷ frs) short =
      let e = prepare_carries s fr short.0 in
      let later = send_all_carries e.1 frs short.1 in
      (e.0 ∷ later.0, later.1, rw (e.2, later.2), (e.3, e.4, rw (sym e.5) later.3))

  -- The packet of a number is there, and carries the frame of that number.
  pub wire_at :
      (i count : ℕ) (frs : List Frame) (wires : List (List ℕ))
      → AllCarry count frs wires
      → i < length frs
      → (fr : Frame) × (wire : List ℕ) × (get_elem? frs i ≡ some fr)
        × (get_elem? wires i ≡ some wire)
        × Carries fr wire
        × (count + i < 10 → wire ≡ framed cid fr)
  wire_at i count [] wires all h = absurd (omega arith)
  wire_at i count (fr ∷ frs) [] all h = absurd all
  wire_at zero count (fr ∷ frs) (wire ∷ wires) all h =
      (fr, wire, refl, refl, all.0, (λ early. all.1 (omega arith)))
  wire_at (suc i) count (fr ∷ frs) (wire ∷ wires) all h =
      let w = wire_at i (count + 1) frs wires all.2 (omega arith) in
      (w.0, w.1, w.2, w.3, w.4, (λ early. w.5 (omega arith)))

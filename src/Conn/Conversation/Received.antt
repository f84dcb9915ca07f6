-- ===== src/Conn/Conversation/Received.antt =====
-- One packet at the server, by what the server knows of its CID.
use quic_hop.Base.{
  ℕ, ◌≤◌, ◌<◌, ◌^◌, ◌≡◌, refl, sym, ap, ◌∙◌, ◌≢◌, List, ◌∷◌, ◌++◌, none, some, arith, length,
  bit_and, take, replicate, if◌then◌else◌, inl, inr, Bool-cases,
}
use quic_hop.Base.BitArray.{IsBytes}
use quic_hop.Base.Assoc.{lookup, insert, bytes_keys, bytes_beq, bytes_beq_iff}
use quic_hop.Algo.Rng.{MathRand}
use quic_hop.Algo.Codec.{put_uint16, get_uint16, obfuscate}
use quic_hop.Algo.Codec.Laws.{get_uint16-put_uint16}
use quic_hop.Session.{
  CidCache, ServerSessionMap, new_cid_cache, add_real, find_by_real, find_by_decoded56, get_cache,
}
use quic_hop.Session.Invariant.{IsValid, new_cid_cache-IsValid, add_real-IsValid}
use quic_hop.Session.Lookup.{find_by_real-add_real}
use quic_hop.Session.Servers.{cache_of, get_cache_lem, cache_of-insert}
use quic_hop.Conn.Packet.{Addr, Packet}
use quic_hop.Conn.Read.{Delivery, deliver, handle_packet}
use quic_hop.Conn.Read.Deliver.{Delivers, deliver-Delivers}
use quic_hop.Conn.Read.Restore.{IsOnlyPrefix, resolve_known, resolve_new, wire_cid_lem}
use quic_hop.Conn.Read.Server.{
  serving, arrived, handle_packet_server, handle_packet_arrives, stored_there,
}

-- The cache knows this CID and no other.
pub record Knows (cid : List ℕ) (cache : CidCache) : Type 0 where
  pub valid : IsValid cache
  pub exactly : (k : List ℕ) → find_by_real cache k ≡ (if bytes_beq cid k then some k else none)

pub new_cid_cache_empty : (k : List ℕ) → find_by_real new_cid_cache k ≡ none
unfolding find_by_real new_cid_cache lookup
new_cid_cache_empty k = refl

pub new_cid_cache_unindexed : (d : List ℕ) → find_by_decoded56 new_cid_cache d ≡ none
unfolding find_by_decoded56 new_cid_cache lookup
new_cid_cache_unindexed d = ground arith

-- The first CID of an empty cache.
pub first-Knows : (cid : List ℕ) → IsBytes cid → Knows cid (add_real new_cid_cache cid)
first-Knows cid bytes = record {
  valid = add_real-IsValid new_cid_cache cid new_cid_cache-IsValid bytes;
  exactly = λ k.
      find_by_real-add_real new_cid_cache cid k new_cid_cache-IsValid bytes
      ∙ rw new_cid_cache_empty;
}

pub Knows-known :
    (cid : List ℕ) (cache : CidCache) → Knows cid cache → find_by_real cache cid ≡ some cid
Knows-known cid cache k = k.exactly cid ∙ rw ((bytes_beq_iff cid cid).1 refl)

pub Knows-only : (cid : List ℕ) (cache : CidCache) → Knows cid cache → IsOnlyPrefix cache cid
Knows-only cid cache k j found same = elim (Bool-cases (bytes_beq cid j)) [
  | inl equal ↦ sym ((bytes_beq_iff cid j).0 equal)
  | inr other ↦ let missing : find_by_real cache j ≡ none = k.exactly j ∙ rw other in absurd (cc)
]

pub Knows-strange :
    (cid wire : List ℕ) (cache : CidCache)
    → Knows cid cache
    → wire ≢ cid
    → find_by_real cache wire ≡ none
Knows-strange cid wire cache k ne = elim (Bool-cases (bytes_beq cid wire)) [
  | inl equal ↦ absurd (ne (sym ((bytes_beq_iff cid wire).0 equal)))
  | inr other ↦ k.exactly wire ∙ rw other
]

module _ (m : MathRand) (cid : List ℕ)
    (moves : obfuscate m cid (get_uint16 (take 2 cid)) ≢ some cid) where
  -- A hidden CID spells its seed, so that it is the CID itself only under the CID's own seed.
  pub strange :
      (seed : ℕ) (wire : List ℕ)
      → seed < 2 ^ 16
      → take 2 wire ≡ put_uint16 seed
      → obfuscate m cid seed ≡ some wire
      → wire ≢ cid
  strange seed wire small front sent e =
      let own : get_uint16 (take 2 cid) ≡ seed =
        ap (λ (x : List ℕ). get_uint16 (take 2 x)) (sym e)
        ∙ ap get_uint16 front
        ∙ get_uint16-put_uint16 seed small in
      moves (ap (obfuscate m cid) own ∙ sent ∙ ap (λ (x : List ℕ). some x) e)

module _ (m : MathRand) (sessions : ServerSessionMap) (mine : CidCache) (queue : List Packet)
    (buffer : List ℕ) (source : Addr) (head : ℕ) (cid : List ℕ) (sized : length cid ≡ 16)
    (bytes : IsBytes cid) (short : bit_and head 0x80 ≡ 0) (rest : List ℕ)
    (room : length (head ∷ cid ++ rest) ≤ length buffer) where
  -- The packet is handed on as the client's QUIC stack wrote it; the server knows the CID, and
  -- every other address keeps its cache.
  abbrev pub Received : List ℕ → Type 0
  Received wire =
      (d : Delivery) × (after : ServerSessionMap) × (handle_packet m (serving sessions mine queue)
          buffer (arrived wire (some source))
        ≡ some (d, serving after mine queue))
      × Delivers buffer (head ∷ cid ++ rest) (some source) d
      × Knows cid (cache_of after source)
      × ((other : Addr) → IsValid (cache_of sessions other) → IsValid (cache_of after other))

  stored-IsValid :
      (cache : CidCache) (other : Addr)
      → IsValid cache
      → IsValid (cache_of sessions other)
      → IsValid (cache_of (insert source cache (get_cache sessions source).1) other)
  stored-IsValid cache other v before =
      rw (cache_of-insert (get_cache sessions source).1 source other cache)
        (elim (Bool-cases (bytes_beq source other)) [
          | inl same ↦ rw same v
          | inr different ↦ rw (different, (get_cache_lem sessions source other).2) before
        ])

  pub plain-Received : Knows cid (cache_of sessions source) → Received (head ∷ cid ++ rest)
  plain-Received k = (
    deliver buffer (head ∷ cid ++ rest) (some source),
    insert source (cache_of sessions source) (get_cache sessions source).1,
    handle_packet_arrives m sessions mine queue buffer head cid cid rest 0 source _ _ sized short (
        resolve_known m (cache_of sessions source) k.valid cid sized bytes buffer
          (head ∷ cid ++ rest) (some source) (wire_cid_lem head cid rest sized)
          (Knows-known cid (cache_of sessions source) k)),
    deliver-Delivers buffer (head ∷ cid ++ rest) (some source) room,
    rw
        (stored_there m sessions mine queue buffer head cid cid rest 0 source
          (cache_of sessions source))
        k,
    λ other. stored-IsValid (cache_of sessions source) other k.valid,
  )

  pub first-Received : cache_of sessions source ≡ new_cid_cache → Received (head ∷ cid ++ rest)
  first-Received fresh =
      let known = first-Knows cid bytes in
      (
        deliver buffer (head ∷ cid ++ rest) (some source),
        insert source (add_real new_cid_cache cid) (get_cache sessions source).1,
        handle_packet_arrives m sessions mine queue buffer head cid cid rest 0 source _ _ sized
            short
            (rw fresh (
              resolve_new m new_cid_cache new_cid_cache-IsValid cid sized bytes buffer
                (head ∷ cid ++ rest) (some source) (wire_cid_lem head cid rest sized)
                (new_cid_cache_empty cid) new_cid_cache_unindexed)),
        deliver-Delivers buffer (head ∷ cid ++ rest) (some source) room,
        rw
            (stored_there m sessions mine queue buffer head cid cid rest 0 source
              (add_real new_cid_cache cid))
            known,
        λ other. stored-IsValid (add_real new_cid_cache cid) other known.valid,
      )

  pub hidden-Received :
      take 7 cid ≢ replicate 7 0
      → (wire : List ℕ) (seed : ℕ) → seed < 2 ^ 16
      → obfuscate m cid seed ≡ some wire
      → wire ≢ cid
      → Knows cid (cache_of sessions source)
      → Received (head ∷ wire ++ rest)
  hidden-Received nonzero wire seed small sent other k =
      let h =
        handle_packet_server m sessions mine queue buffer head cid wire rest seed source k.valid
          sized bytes small short sent (Knows-known cid (cache_of sessions source) k)
          (Knows-strange cid wire (cache_of sessions source) k other)
          (Knows-only cid (cache_of sessions source) k) nonzero room in
      (h.0, h.1, h.2, h.3, rw (h.4 source) k, (λ there before. rw (h.4 there) before))

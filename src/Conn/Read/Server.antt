-- ===== src/Conn/Read/Server.antt =====
-- `ReadFrom` on the two sides.
use quic_hop.Base.{
  ℕ, ◌≤◌, ◌<◌, ◌^◌, ◌≡◌, refl, ap, ◌∙◌, ◌≢◌, List, ◌∷◌, ◌++◌, Option, none, some, arith, length,
  bit_and, take, replicate, length-append, inl, inr, true, false, if◌then◌else◌, ltb, Bool-cases,
}
use quic_hop.Base.BitArray.{IsBytes}
use quic_hop.Base.Assoc.{insert, bytes_keys, bytes_beq, bytes_beq_iff}
use quic_hop.Algo.Rng.{MathRand}
use quic_hop.Algo.Codec.{obfuscate}
use quic_hop.Session.{CidCache, ServerSessionMap, find_by_real, get_cache}
use quic_hop.Session.Invariant.{IsValid}
use quic_hop.Session.Servers.{cache_of, get_cache_lem, cache_of-insert}
use quic_hop.Conn.Packet.{Addr, Packet, fake_addr, is_long_header}
use quic_hop.Conn.Read.{
  Receiver, Delivery, resolve, resolve_short, resolve_server, resolve_client, handle_content,
  handle_packet,
}
use quic_hop.Conn.Read.Deliver.{Delivers}
use quic_hop.Conn.Read.Restore.{IsOnlyPrefix, obfuscated_size, resolve_restores}

abbrev pub serving : ServerSessionMap → CidCache → List Packet → Receiver
serving sessions cache queue = record {
  is_server = true;
  sessions = sessions;
  client_cache = cache;
  recv_queue = queue;
}

abbrev pub dialing : ServerSessionMap → CidCache → List Packet → Receiver
dialing sessions cache queue = record {
  is_server = false;
  sessions = sessions;
  client_cache = cache;
  recv_queue = queue;
}

abbrev pub arrived : List ℕ → Option Addr → Packet
arrived content source = record { payload = content; addr = source; err = none }

short_header : (head : ℕ) (xs : List ℕ) → bit_and head 0x80 ≡ 0 → is_long_header (head ∷ xs) ≡ false
unfolding is_long_header
short_header head xs h = ground (arith, h)

handle_short :
    (m : MathRand) (r : Receiver) (p : List ℕ) (head : ℕ) (xs : List ℕ) (source : Option Addr)
    → bit_and head 0x80 ≡ 0
    → 16 ≤ length xs
    → handle_content m r p (head ∷ xs) source
      ≡ resolve_short m r.is_server r p (head ∷ xs) (if r.is_server then source else some fake_addr)
unfolding handle_content
handle_short m r p head xs source h long =
    let test : ltb (length (head ∷ xs)) 17 ≡ false = ground arith in
    rw (short_header head xs h, test)

module _ (m : MathRand) (sessions : ServerSessionMap) (mine : CidCache) (queue : List Packet)
    (p : List ℕ) (head : ℕ) (cid wire rest : List ℕ) (seed : ℕ) (source : Addr) where
  resolve_client-eq :
      (content : List ℕ) (d : Delivery) (cache : CidCache)
      → resolve m mine p content (some fake_addr) ≡ some (d, cache)
      → resolve_client m (dialing sessions mine queue) p content (some fake_addr)
        ≡ some (d, dialing sessions cache queue)
  unfolding resolve_client
  resolve_client-eq content d cache e = rw e

  resolve_server-eq :
      (content : List ℕ) (d : Delivery) (cache : CidCache)
      → resolve m (cache_of sessions source) p content (some source) ≡ some (d, cache)
      → resolve_server m (serving sessions mine queue) p content (some source)
        ≡ some (d, serving (insert source cache (get_cache sessions source).1) mine queue)
  unfolding resolve_server
  resolve_server-eq content d cache e =
      let got = (get_cache_lem sessions source source).0 in rw (got, e)

  -- A packet that comes with its real CID, on the server, by what its cache makes of it.
  pub handle_packet_arrives :
      (d : Delivery) (after : CidCache)
      → length cid ≡ 16
      → bit_and head 0x80 ≡ 0
      → resolve m (cache_of sessions source) p (head ∷ cid ++ rest) (some source) ≡ some (d, after)
      → handle_packet m (serving sessions mine queue) p (arrived (head ∷ cid ++ rest) (some source))
        ≡ some (d, serving (insert source after (get_cache sessions source).1) mine queue)
  unfolding handle_packet
  handle_packet_arrives d after sized short e =
      handle_short m (serving sessions mine queue) p head (cid ++ rest) (some source) short
        (omega (arith, length-append cid rest))
      ∙ unfold resolve_short in resolve_server-eq (head ∷ cid ++ rest) d after e

  -- The same on the client, from wherever the packet comes.
  pub handle_packet_reaches :
      (origin : Option Addr) (d : Delivery) (after : CidCache)
      → length cid ≡ 16
      → bit_and head 0x80 ≡ 0
      → resolve m mine p (head ∷ cid ++ rest) (some fake_addr) ≡ some (d, after)
      → handle_packet m (dialing sessions mine queue) p (arrived (head ∷ cid ++ rest) origin)
        ≡ some (d, dialing sessions after queue)
  unfolding handle_packet
  handle_packet_reaches origin d after sized short e =
      handle_short m (dialing sessions mine queue) p head (cid ++ rest) origin short
        (omega (arith, length-append cid rest))
      ∙ unfold resolve_short in resolve_client-eq (head ∷ cid ++ rest) d after e

  -- The cache of the source is the one that was stored for it.
  pub stored_there :
      (after : CidCache)
      → cache_of (insert source after (get_cache sessions source).1) source ≡ after
  stored_there after =
      cache_of-insert (get_cache sessions source).1 source source after
      ∙ rw ((bytes_beq_iff source source).1 refl)

  pub sessions_kept :
      (other : Addr)
      → cache_of (insert source (cache_of sessions source) (get_cache sessions source).1) other
        ≡ cache_of sessions other
  sessions_kept other =
      cache_of-insert (get_cache sessions source).1 source other (cache_of sessions source)
      ∙ elim (Bool-cases (bytes_beq source other)) [
        | inl same ↦ rw same (ap (cache_of sessions) ((bytes_beq_iff source other).0 same))
        | inr different ↦ rw different ((get_cache_lem sessions source other).2)
      ]

  -- The server hands on a short-header packet whose 16-byte CID was hidden as the packet that had
  -- its real CID: the source's cache is valid and knows the CID, no other known CID of the source
  -- starts with its 7 first bytes, which are not seven zeros, the hidden CID is not itself a known
  -- one, and the buffer is long enough. The returned address is the source, and every address
  -- keeps its cache.
  pub handle_packet_server :
      IsValid (cache_of sessions source)
      → length cid ≡ 16
      → IsBytes cid
      → seed < 2 ^ 16
      → bit_and head 0x80 ≡ 0
      → obfuscate m cid seed ≡ some wire
      → find_by_real (cache_of sessions source) cid ≡ some cid
      → find_by_real (cache_of sessions source) wire ≡ none
      → IsOnlyPrefix (cache_of sessions source) cid
      → take 7 cid ≢ replicate 7 0
      → length (head ∷ cid ++ rest) ≤ length p
      → (d : Delivery) × (after : ServerSessionMap) × (handle_packet m
            (serving sessions mine queue)
            p
            (arrived (head ∷ wire ++ rest) (some source))
          ≡ some (d, serving after mine queue))
        × Delivers p (head ∷ cid ++ rest) (some source) d
        × ((other : Addr) → cache_of after other ≡ cache_of sessions other)
  unfolding handle_packet
  handle_packet_server v sized bytes small short sent known strange only nonzero room =
      let done =
        resolve_restores m (cache_of sessions source) v cid sized bytes p head wire rest seed
          (some source) small sent known strange only nonzero room in
      (
        done.0,
        insert source (cache_of sessions source) (get_cache sessions source).1,
        handle_short m (serving sessions mine queue) p head (wire ++ rest) (some source) short (
              omega (
                arith,
                length-append wire rest,
                obfuscated_size m cid wire seed sized bytes small sent,
              ))
            ∙ unfold resolve_short in
              resolve_server-eq (head ∷ wire ++ rest) done.0 (cache_of sessions source) done.1,
        done.2,
        sessions_kept,
      )

  -- The client hands on a short-header packet whose 16-byte CID was hidden as the packet that had
  -- its real CID: its cache is valid and knows the CID, no other known CID starts with its 7 first
  -- bytes, which are not seven zeros, the hidden CID is not itself a known one, and the buffer is
  -- long enough. The cache stays as it is, and the returned address is always the fixed fake
  -- address, whatever port the packet came from.
  pub handle_packet_client :
      (origin : Option Addr)
      → IsValid mine
      → length cid ≡ 16
      → IsBytes cid
      → seed < 2 ^ 16
      → bit_and head 0x80 ≡ 0
      → obfuscate m cid seed ≡ some wire
      → find_by_real mine cid ≡ some cid
      → find_by_real mine wire ≡ none
      → IsOnlyPrefix mine cid
      → take 7 cid ≢ replicate 7 0
      → length (head ∷ cid ++ rest) ≤ length p
      → (d : Delivery) × (handle_packet m
            (dialing sessions mine queue)
            p
            (arrived (head ∷ wire ++ rest) origin)
          ≡ some (d, dialing sessions mine queue))
        × Delivers p (head ∷ cid ++ rest) (some fake_addr) d
  unfolding handle_packet
  handle_packet_client origin v sized bytes small short sent known strange only nonzero room =
      let done =
        resolve_restores m mine v cid sized bytes p head wire rest seed (some fake_addr) small sent
          known strange only nonzero room in
      (
        done.0,
        handle_short m (dialing sessions mine queue) p head (wire ++ rest) origin short (
              omega (
                arith,
                length-append wire rest,
                obfuscated_size m cid wire seed sized bytes small sent,
              ))
            ∙ unfold resolve_short in resolve_client-eq (head ∷ wire ++ rest) done.0 mine done.1,
        done.2,
      )

-- ===== src/Conn/Network/Elsewhere.antt =====
-- A packet from another address leaves what the server knows of an address.
use quic_hop.Base.{
  ℕ, ◌≤◌, ◌≡◌, refl, ◌∙◌, ◌≢◌, List, Option, none, some, arith, length, inl, inr, ltb, Bool-cases,
  Option-cases,
}
use quic_hop.Base.BitArray.{IsBytes}
use quic_hop.Base.Assoc.{insert, bytes_keys, bytes_beq, bytes_beq_iff}
use quic_hop.Algo.Rng.{MathRand}
use quic_hop.Session.{CidCache, ServerSessionMap, get_cache}
use quic_hop.Session.Servers.{cache_of, get_cache_lem, cache_of-insert}
use quic_hop.Conn.Packet.{Addr, Packet, is_long_header}
use quic_hop.Conn.Read.{
  Receiver, Delivery, resolve_short, resolve_server, handle_content, handle_packet,
}
use quic_hop.Conn.Read.Server.{serving}
use quic_hop.Conn.Read.Total.{IsReady, resolve_total, stored-IsReady}

module _ (m : MathRand) (sessions : ServerSessionMap) (mine : CidCache) (queue : List Packet)
    (buffer : List ℕ) (source : Addr) (room : 1 ≤ length buffer)
    (ready : IsReady (serving sessions mine queue)) where
  -- The packet is handled, the caches stay valid, and the cache of the source stays as it is.
  abbrev pub Passes : Option (Delivery × Receiver) → Type 0
  Passes o =
      (d : Delivery) × (after : ServerSessionMap) × (o ≡ some (d, serving after mine queue))
      × IsReady (serving after mine queue)
      × (cache_of after source ≡ cache_of sessions source)

  untouched : (d : Delivery) → Passes (some (d, serving sessions mine queue))
  untouched d = (d, sessions, refl, ready, refl)

  other_cache :
      (there : Addr) (cache : CidCache)
      → there ≢ source
      → cache_of (insert there cache (get_cache sessions there).1) source ≡ cache_of sessions source
  other_cache there cache ne =
      cache_of-insert (get_cache sessions there).1 there source cache
      ∙ elim (Bool-cases (bytes_beq there source)) [
        | inl same ↦ absurd (ne ((bytes_beq_iff there source).0 same))
        | inr different ↦ rw different ((get_cache_lem sessions there source).2)
      ]

  resolve_server-Passes :
      (content : List ℕ) (addr : Option Addr)
      → addr ≢ some source
      → IsBytes content
      → 17 ≤ length content
      → Passes (resolve_server m (serving sessions mine queue) buffer content addr)
  unfolding resolve_server
  resolve_server-Passes content none ne bytes long = untouched _
  resolve_server-Passes content (some there) ne bytes long =
      let t =
        resolve_total m (cache_of sessions there) (ready.each_server there) buffer content
          (some there) room bytes long in
      let got = (get_cache_lem sessions there there).0 in
      (
        t.0,
        insert there t.1 (get_cache sessions there).1,
        rw (got, t.2),
        stored-IsReady m (serving sessions mine queue) ready buffer room there t.1 t.3,
        other_cache there t.1 (λ e. ne (rw e)),
      )

  handle_content-Passes :
      (content : List ℕ) (addr : Option Addr)
      → addr ≢ some source
      → IsBytes content
      → Passes (handle_content m (serving sessions mine queue) buffer content addr)
  unfolding handle_content resolve_short
  handle_content-Passes content addr ne bytes = elim (Bool-cases (is_long_header content)) [
    | inl long_header ↦ rw long_header (untouched _)
    | inr short_header ↦ elim (Bool-cases (ltb (length content) 17)) [
      | inl short ↦ rw (short_header, short) (untouched _)
      | inr long ↦
          rw (short_header, long) (resolve_server-Passes content addr ne bytes (ground arith))
    ]
  ]

  pub handle_packet-Passes :
      (pkt : Packet)
      → pkt.addr ≢ some source
      → IsBytes pkt.payload
      → Passes (handle_packet m (serving sessions mine queue) buffer pkt)
  unfolding handle_packet
  handle_packet-Passes pkt ne bytes = elim (Option-cases pkt.err) [
    | inl fine ↦ rw fine (handle_content-Passes pkt.payload pkt.addr ne bytes)
    | inr (e, bad) ↦ rw bad (untouched _)
  ]

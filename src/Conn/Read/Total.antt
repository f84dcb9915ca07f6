-- ===== src/Conn/Read/Total.antt =====
-- `ReadFrom` never panics on bytes from the network, and keeps every cache valid.
use quic_hop.Base.{
  ℕ, zero, suc, ◌≤◌, ◌≡◌, refl, List, [], ◌∷◌, ◌++◌, Option, none, some, arith, length, take, drop,
  length-take, length-drop, Option-cases, inl, inr, Bool, true, false, ltb, Bool-cases,
}
use Prim.Native.Nat.{min}
use quic_hop.Base.BitArray.{IsBytes, take-IsBytes}
use quic_hop.Base.Assoc.{insert, bytes_keys, bytes_beq}
use quic_hop.Algo.Rng.{MathRand}
use quic_hop.Algo.Codec.{copy}
use quic_hop.Algo.Codec.Checks.{deobfuscate_total}
use quic_hop.Session.{CidCache, add_real, find_by_real, get_cache}
use quic_hop.Session.Invariant.{IsValid, add_real-IsValid}
use quic_hop.Session.Servers.{cache_of, get_cache_lem, cache_of-insert}
use quic_hop.Conn.Packet.{Addr, Packet, wire_cid, is_long_header}
use quic_hop.Conn.Read.{
  Receiver, Delivery, deliver, deliver_restored, resolve, resolve_plain, resolve_decoded,
  resolve_server, resolve_client, resolve_short, handle_content, handle_packet,
}

pub record IsReady (r : Receiver) : Type 0 where
  pub each_server : (source : Addr) → IsValid (cache_of r.sessions source)
  pub client : IsValid r.client_cache

drop-IsBytes : (n : ℕ) (xs : List ℕ) → IsBytes xs → IsBytes (drop n xs)
drop-IsBytes zero xs h = h
drop-IsBytes (suc n) [] h = h
drop-IsBytes (suc n) (x ∷ xs) h = drop-IsBytes n xs (λ i. h (suc i))

wire_cid-IsBytes : (content : List ℕ) → IsBytes content → IsBytes (wire_cid content)
unfolding wire_cid
wire_cid-IsBytes content h = take-IsBytes 16 (drop 1 content) (drop-IsBytes 1 content h)

length-wire_cid : (content : List ℕ) → 17 ≤ length content → length (wire_cid content) ≡ 16
unfolding wire_cid
length-wire_cid content h = omega (arith, length-take 16 (drop 1 content), length-drop 1 content)

restored_total :
    (p content real : List ℕ) (addr : Option Addr)
    → 1 ≤ length p
    → (d : Delivery) × (deliver_restored p content real addr ≡ some d)
unfolding deliver_restored
restored_total p content real addr h =
    let enough : ltb (length p) 1 ≡ false = ground arith in
    (
      record {
        n = min (length p) (length content);
        buffer = take 1 (copy p content) ++ copy (drop 1 (copy p content)) real;
        addr = addr;
        err = none;
      },
      rw enough,
    )

module _ (m : MathRand) (cache : CidCache) (v : IsValid cache) (p content : List ℕ)
    (addr : Option Addr) (room : 1 ≤ length p) (bytes : IsBytes content) where
  abbrev pub Resolved : Option (Delivery × CidCache) → Type 0
  Resolved o = (d : Delivery) × (after : CidCache) × (o ≡ some (d, after)) × IsValid after

  resolve_decoded_total : (o : Option (List ℕ)) → Resolved (resolve_decoded cache p content addr o)
  unfolding resolve_decoded
  resolve_decoded_total (some real) =
      let d = restored_total p content real addr room in (d.0, cache, rw (d.1), v)
  resolve_decoded_total none = (
    deliver p content addr,
    add_real cache (wire_cid content),
    refl,
    add_real-IsValid cache (wire_cid content) v (wire_cid-IsBytes content bytes),
  )

  resolve_plain_total :
      (o : Option (List ℕ))
      → 17 ≤ length content
      → Resolved (resolve_plain m cache p content addr o)
  unfolding resolve_plain
  resolve_plain_total (some real) long = (deliver p content addr, cache, refl, v)
  resolve_plain_total none long =
      let d =
        deobfuscate_total m (wire_cid content) (length-wire_cid content long)
          (wire_cid-IsBytes content bytes) in
      rw (d.1) (resolve_decoded_total _)

  pub resolve_total : 17 ≤ length content → Resolved (resolve m cache p content addr)
  unfolding resolve
  resolve_total long = resolve_plain_total (find_by_real cache (wire_cid content)) long

module _ (m : MathRand) (r : Receiver) (ready : IsReady r) (p : List ℕ) (room : 1 ≤ length p) where
  abbrev Returns : Option (Delivery × Receiver) → Type 0
  Returns o = (d : Delivery) × (r' : Receiver) × (o ≡ some (d, r')) × IsReady r'

  pub stored-IsReady :
      (source : Addr) (cache : CidCache)
      → IsValid cache
      → IsReady (record r { sessions = insert source cache (get_cache r.sessions source).1 })
  stored-IsReady source cache v = record {
    each_server = λ other.
        rw (cache_of-insert (get_cache r.sessions source).1 source other cache)
          (elim (Bool-cases (bytes_beq source other)) [
            | inl same ↦ rw same v
            | inr different ↦
                rw (different, (get_cache_lem r.sessions source other).2) (ready.each_server other)
          ]);
    client = ready.client;
  }

  resolve_server_total :
      (content : List ℕ) (addr : Option Addr)
      → IsBytes content
      → 17 ≤ length content
      → Returns (resolve_server m r p content addr)
  unfolding resolve_server
  resolve_server_total content none bytes long = (_, r, refl, ready)
  resolve_server_total content (some source) bytes long =
      let t =
        resolve_total m (cache_of r.sessions source) (ready.each_server source) p content
          (some source) room bytes long in
      let got = (get_cache_lem r.sessions source source).0 in
      (t.0, _, rw (got, t.2) refl, stored-IsReady source t.1 t.3)

  resolve_short_total :
      (server : Bool) (content : List ℕ) (addr : Option Addr)
      → IsBytes content
      → 17 ≤ length content
      → Returns (resolve_short m server r p content addr)
  unfolding resolve_short resolve_client
  resolve_short_total true content addr bytes long = resolve_server_total content addr bytes long
  resolve_short_total false content addr bytes long =
      let t = resolve_total m r.client_cache ready.client p content addr room bytes long in
      (
        t.0,
        record r { client_cache = t.1 },
        rw (t.2) refl,
        record { each_server = ready.each_server; client = t.3 },
      )

  handle_content_total :
      (content : List ℕ) (source : Option Addr)
      → IsBytes content
      → Returns (handle_content m r p content source)
  unfolding handle_content
  handle_content_total content source bytes = elim (Bool-cases (is_long_header content)) [
    | inl long_header ↦ rw long_header (_, r, refl, ready)
    | inr short_header ↦ elim (Bool-cases (ltb (length content) 17)) [
      | inl short ↦ rw (short_header, short) (_, r, refl, ready)
      | inr long ↦
          rw (short_header, long) (resolve_short_total r.is_server content _ bytes (ground arith))
    ]
  ]

  -- With valid caches and a caller's buffer that is not empty, every packet of bytes is handled
  -- with no panic, and every cache stays valid: the codec meets 16 bytes only, and its table is
  -- never read out of range.
  pub handle_packet_total :
      (pkt : Packet)
      → IsBytes pkt.payload
      → (d : Delivery) × (r' : Receiver) × (handle_packet m r p pkt ≡ some (d, r')) × IsReady r'
  unfolding handle_packet
  handle_packet_total pkt bytes = elim (Option-cases pkt.err) [
    | inl fine ↦ rw (fine, handle_packet) (handle_content_total pkt.payload pkt.addr bytes)
    | inr (e, bad) ↦ rw (bad, handle_packet) (_, r, refl, ready)
  ]

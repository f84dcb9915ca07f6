-- ===== src/Conn/Read.antt =====
-- `ReadFrom`: the next packet of the queue, with its real CID put back.
pub mod Deliver
pub mod Restore
pub mod Server
pub mod Total
use quic_hop.Base.{
  ℕ, ◌+◌, List, [], ◌∷◌, ◌++◌, Bool, true, false, Option, none, some, ltb, ◌==◌, length, take, drop,
  if◌then◌else◌, ◌>>=◌,
}
use Prim.Native.Nat.{min}
use quic_hop.Base.Assoc.{insert, bytes_keys}
use quic_hop.Config.{codes, fixed_cid_len}
use quic_hop.Algo.Rng.{MathRand}
use quic_hop.Algo.Codec.{copy, deobfuscate}
use quic_hop.Session.{
  CidCache, ServerSessionMap, get_cache, add_real, find_by_real, find_by_decoded56,
}
use quic_hop.Conn.Packet.{Addr, Packet, fake_addr, cid_offset, is_long_header, wire_cid}

-- The receiving half of a connection: the server's caches are the global map, the client has one.
pub record Receiver : Type 0 where
  pub is_server : Bool
  pub sessions : ServerSessionMap
  pub client_cache : CidCache
  pub recv_queue : List Packet

-- The values `ReadFrom` returns, and the caller's buffer after the call.
pub record Delivery : Type 0 where
  pub n : ℕ
  pub buffer : List ℕ
  pub addr : Option Addr
  pub err : Option (List ℕ)

abbrev pub connection_closed : List ℕ
connection_closed = codes "connection closed"

abbrev pub nil_source : List ℕ
nil_source = codes "nil source address"

-- `n = copy(p, data); return n, addr, nil`
unfoldable pub deliver : List ℕ → List ℕ → Option Addr → Delivery
deliver p content addr = record {
  n = min (length p) (length content);
  buffer = copy p content;
  addr = addr;
  err = none;
}

unfoldable pub refuse : List ℕ → List ℕ → Delivery
refuse p e = record { n = 0; buffer = p; addr = none; err = some e }

-- `n = copy(p, data); copy(p[cidOffset:], real)`; slicing an empty buffer there panics.
unfoldable pub deliver_restored : List ℕ → List ℕ → List ℕ → Option Addr → Option Delivery
deliver_restored p content real addr =
    let buffer = copy p content in
    if ltb (length p) cid_offset
    then none
    else some (record {
      n = min (length p) (length content);
      buffer = take cid_offset buffer ++ copy (drop cid_offset buffer) real;
      addr = addr;
      err = none;
    })

-- B and C: the CID that the decoded bytes found, or none, and then the wire CID is a new real CID.
unfoldable pub resolve_decoded :
    CidCache → List ℕ → List ℕ → Option Addr → Option (List ℕ) → Option (Delivery × CidCache)
unfolding deliver deliver_restored
resolve_decoded cache p content addr (some real) =
    deliver_restored p content real addr >>= λ d. some (d, cache)
resolve_decoded cache p content addr none =
    some (deliver p content addr, add_real cache (wire_cid content))

module _ (m : MathRand) where
  -- A: the wire CID was found as it is; otherwise it is decoded.
  unfoldable pub resolve_plain :
      CidCache → List ℕ → List ℕ → Option Addr → Option (List ℕ) → Option (Delivery × CidCache)
  unfolding deliver resolve_decoded
  resolve_plain cache p content addr (some real) = some (deliver p content addr, cache)
  resolve_plain cache p content addr none = do
    decoded ← deobfuscate m (wire_cid content)
    resolve_decoded cache p content addr (find_by_decoded56 cache decoded)

  -- The lookups of a short header's CID, in one cache, which C extends.
  unfoldable pub resolve : CidCache → List ℕ → List ℕ → Option Addr → Option (Delivery × CidCache)
  unfolding resolve_plain
  resolve cache p content addr =
      resolve_plain cache p content addr (find_by_real cache (wire_cid content))

  -- A short header on the server: the cache of the source, changed in place.
  unfoldable pub resolve_server :
      Receiver → List ℕ → List ℕ → Option Addr → Option (Delivery × Receiver)
  unfolding resolve
  resolve_server r p content none = some (refuse p nil_source, r)
  resolve_server r p content (some source) =
      let (cache, sessions) = get_cache r.sessions source in
      resolve cache p content (some source) >>= λ done.
      some (done.0, record r { sessions = insert source done.1 sessions })

  unfoldable pub resolve_client :
      Receiver → List ℕ → List ℕ → Option Addr → Option (Delivery × Receiver)
  unfolding resolve
  resolve_client r p content addr = do
    done ← resolve r.client_cache p content addr
    some (done.0, record r { client_cache = done.1 })

  unfoldable pub resolve_short :
      Bool → Receiver → List ℕ → List ℕ → Option Addr → Option (Delivery × Receiver)
  unfolding resolve_server resolve_client
  resolve_short true r p content addr = resolve_server r p content addr
  resolve_short false r p content addr = resolve_client r p content addr

  -- A packet of the queue that carries no error.
  unfoldable pub handle_content :
      Receiver → List ℕ → List ℕ → Option Addr → Option (Delivery × Receiver)
  unfolding resolve_short deliver
  handle_content r p content source =
      let addr = if r.is_server then source else some fake_addr in
      if is_long_header content
      then some (deliver p content addr, r)
      else if ltb (length content) (cid_offset + fixed_cid_len)
      then some (deliver p content addr, r)
      else resolve_short r.is_server r p content addr

  -- `ReadFrom` once the packet is taken from the queue.
  unfoldable pub handle_packet : Receiver → List ℕ → Packet → Option (Delivery × Receiver)
  unfolding handle_content refuse
  handle_packet r p pkt = elim pkt.err [
    | some e ↦ some (refuse p e, r)
    | none ↦ handle_content r p pkt.payload pkt.addr
  ]

-- What the `select` of `ReadFrom` took: the head of the queue, or the end of the context. Both can
-- be ready at once, and then either is taken.
pub data Ready : Type 0 where
  queued : Packet → List Packet → Ready
  done : Ready

unfoldable pub read_from : MathRand → Receiver → List ℕ → Ready → Option (Delivery × Receiver)
unfolding handle_packet
read_from m r p (queued pkt rest) = handle_packet m (record r { recv_queue = rest }) p pkt
read_from m r p done = some (refuse p connection_closed, r)

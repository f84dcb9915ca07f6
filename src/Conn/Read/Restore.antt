-- ===== src/Conn/Read/Restore.antt =====
-- `ReadFrom` undoes what `WriteTo` does to a packet, once the real CID is known.
use quic_hop.Base.{
  ℕ, ◌≤◌, ◌<◌, ◌^◌, ◌≡◌, refl, sym, ap, ◌∙◌, ◌≢◌, List, ◌∷◌, ◌++◌, Option, none, some, arith,
  length, take, replicate, length-append, take-append, length-take, get_or-replicate,
}
use quic_hop.Base.BitArray.{IsBytes, take-IsBytes, append-IsBytes}
use quic_hop.Base.Assoc.{bytes_keys}
use quic_hop.Algo.Rng.{MathRand}
use quic_hop.Algo.Codec.{obfuscate, deobfuscate}
use quic_hop.Algo.Codec.Laws.{deobfuscate-obfuscate}
use quic_hop.Algo.Codec.Checks.{deobfuscate_total}
use quic_hop.Session.{CidCache, add_real, find_by_real, find_by_decoded56}
use quic_hop.Session.Invariant.{IsValid}
use quic_hop.Session.Prefixes.{find_by_decoded56_sound, find_by_decoded56_complete}
use quic_hop.Conn.Packet.{Addr, wire_cid}
use quic_hop.Conn.Read.{Delivery, deliver, deliver_restored, resolve}
use quic_hop.Conn.Read.Deliver.{Delivers, deliver_restored-Delivers}

pub wire_cid_lem :
    (head : ℕ) (cid rest : List ℕ) → length cid ≡ 16 → wire_cid (head ∷ cid ++ rest) ≡ cid
unfolding wire_cid
wire_cid_lem head cid rest h = take-append cid rest 16 h

pub obfuscated_size :
    (m : MathRand) (cid wire : List ℕ) (seed : ℕ)
    → length cid ≡ 16
    → IsBytes cid
    → seed < 2 ^ 16
    → obfuscate m cid seed ≡ some wire
    → length wire ≡ 16
obfuscated_size m cid wire seed sized bytes small sent =
    let o = deobfuscate-obfuscate m cid seed sized bytes small in
    let same : o.0 ≡ wire = cc (o.1) in rw (← same) (o.2)

-- No other known CID starts with the same 7 bytes.
abbrev pub IsOnlyPrefix : CidCache → List ℕ → Type 0
IsOnlyPrefix cache cid =
    (k : List ℕ) → find_by_real cache k ≡ some k → take 7 k ≡ take 7 cid → k ≡ cid

module _ (m : MathRand) (cache : CidCache) (v : IsValid cache) (cid : List ℕ)
    (sized : length cid ≡ 16) (bytes : IsBytes cid) where
  abbrev decoded : List ℕ
  decoded = take 7 cid ++ replicate 9 0

  decoded-IsBytes : IsBytes decoded
  decoded-IsBytes =
      append-IsBytes (take 7 cid) (replicate 9 0) (take-IsBytes 7 cid bytes)
        (λ i. omega (arith, get_or-replicate {A = ℕ} 9 0 i))

  decoded_front : take 7 decoded ≡ take 7 cid
  decoded_front = take-append (take 7 cid) (replicate 9 0) 7 (omega (arith, length-take 7 cid))

  -- The decoded bytes of a known CID find that CID.
  find_decoded :
      find_by_real cache cid ≡ some cid
      → IsOnlyPrefix cache cid
      → take 7 cid ≢ replicate 7 0
      → find_by_decoded56 cache decoded ≡ some cid
  find_decoded known only nonzero =
      let f =
        find_by_decoded56_complete cache decoded cid v decoded-IsBytes known (omega arith)
          (omega (arith, length-append (take 7 cid) (replicate 9 0), length-take 7 cid))
          (sym decoded_front) (λ z. nonzero (sym decoded_front ∙ z)) in
      let sound = find_by_decoded56_sound cache decoded f.0 v decoded-IsBytes f.1 in
      f.1 ∙ ap (λ (x : List ℕ). some x) (only f.0 sound.0 (f.2 ∙ decoded_front))

  resolve_eq :
      (p content wire : List ℕ) (addr : Option Addr) (d : Delivery)
      → wire_cid content ≡ wire
      → find_by_real cache wire ≡ none
      → deobfuscate m wire ≡ some decoded
      → find_by_decoded56 cache decoded ≡ some cid
      → deliver_restored p content cid addr ≡ some d
      → resolve m cache p content addr ≡ some (d, cache)
  unfolding resolve
  resolve_eq p content wire addr d at strange back found done =
      rw (at, strange, at, back, found, done) refl

  pub resolve_restores :
      (p : List ℕ) (head : ℕ) (wire rest : List ℕ) (seed : ℕ) (addr : Option Addr)
      → seed < 2 ^ 16
      → obfuscate m cid seed ≡ some wire
      → find_by_real cache cid ≡ some cid
      → find_by_real cache wire ≡ none
      → IsOnlyPrefix cache cid
      → take 7 cid ≢ replicate 7 0
      → length (head ∷ cid ++ rest) ≤ length p
      → (d : Delivery) × (resolve m cache p (head ∷ wire ++ rest) addr ≡ some (d, cache))
        × Delivers p (head ∷ cid ++ rest) addr d
  resolve_restores p head wire rest seed addr small sent known strange only nonzero room =
      let o = deobfuscate-obfuscate m cid seed sized bytes small in
      let same : o.0 ≡ wire = cc (o.1) in
      let wire_size : length wire ≡ 16 = rw (← same) (o.2) in
      let back : deobfuscate m wire ≡ some decoded = rw (← same) (o.4) in
      let d = deliver_restored-Delivers p head wire cid rest addr wire_size sized room in
      let at = wire_cid_lem head wire rest wire_size in
      (
        d.0,
        resolve_eq p (head ∷ wire ++ rest) wire addr d.0 at strange back
            (find_decoded known only nonzero) d.1,
        d.2,
      )

  -- A packet whose CID is known as it is goes through unchanged.
  pub resolve_known :
      (p content : List ℕ) (addr : Option Addr)
      → wire_cid content ≡ cid
      → find_by_real cache cid ≡ some cid
      → resolve m cache p content addr ≡ some (deliver p content addr, cache)
  unfolding resolve
  resolve_known p content addr at known = rw (at, known) refl

  -- A packet whose CID is neither known nor the hidden form of a known one goes through unchanged,
  -- and its CID becomes a known one.
  pub resolve_new :
      (p content : List ℕ) (addr : Option Addr)
      → wire_cid content ≡ cid
      → find_by_real cache cid ≡ none
      → ((d : List ℕ) → find_by_decoded56 cache d ≡ none)
      → resolve m cache p content addr ≡ some (deliver p content addr, add_real cache cid)
  unfolding resolve
  resolve_new p content addr at unknown nothing =
      let t = deobfuscate_total m cid sized bytes in
      rw (at, unknown, at, t.1, nothing (t.0 ++ replicate 9 0), at) refl

-- ===== src/Algo/Codec/Laws.antt =====
-- The codec as a whole: decoding inverts encoding on the 56 payload bits, and the only panic is
-- that of a wrong length.
use mathlib.Core.List.{append-nil}
use quic_hop.Base.{
  ℕ, zero, suc, ◌+◌, ◌^◌, ◌<◌, ◌≡◌, refl, sym, ap, ap₂, ◌∙◌, List, ◌++◌, some, arith, bit_xor,
  length, take, drop, replicate, u8, ◌>>>◌, length-take, length-drop, length-append, take_all,
  drop_all,
}
use quic_hop.Base.Bits.{bit_xor_undo}
use quic_hop.Base.Bits.Fields.{bit_or_shifted}
use quic_hop.Base.BitArray.{bit_at, IsBytes, bit_at-lt, bit_at_ext, take-IsBytes, append-IsBytes}
use quic_hop.Algo.Fnv.{shared_secret_hash}
use quic_hop.Algo.Rng.{MathRand, lcg}
use quic_hop.Algo.Shuffle.{IsPermutation}
use quic_hop.Algo.Indices.{shuffled_indices, shuffled_indices-IsPermutation}
use quic_hop.Algo.Codec.{
  copy, put_uint16, get_uint16, noise_loop, noise_of, write_back, obfuscate, deobfuscate,
  encode_loop, decode_loop,
}
use quic_hop.Algo.Codec.Encode.{EncodedTo, encode_loop_lem}
use quic_hop.Algo.Codec.Decode.{DecodedTo, decode_loop_lem}

pub copy_whole : (dst src : List ℕ) → length dst ≡ length src → copy dst src ≡ src
copy_whole dst src h =
    rw (take_all src (length dst) (omega arith), drop_all dst (length src) (omega arith))
      (append-nil src)

pub get_uint16-put_uint16 : (v : ℕ) → v < 2 ^ 16 → get_uint16 (put_uint16 v) ≡ v
get_uint16-put_uint16 v h = omega (arith, bit_or_shifted 8 (u8 v) (u8 (v >>> 8)) (omega arith))

put_uint16-IsBytes : (v : ℕ) → IsBytes (put_uint16 v)
put_uint16-IsBytes v zero = omega arith
put_uint16-IsBytes v (suc zero) = omega arith
put_uint16-IsBytes v (suc (suc i)) = omega arith

length-noise_loop : (n i state : ℕ) → length (noise_loop n i state) ≡ n
unfolding noise_loop
length-noise_loop zero i state = refl
length-noise_loop (suc n) i state = ap suc (length-noise_loop n (i + 1) _)

length-noise_of : (s : ℕ) → length (noise_of s) ≡ 7
unfolding noise_of
length-noise_of s = length-noise_loop 7 0 (lcg (bit_xor s shared_secret_hash))

module _ (m : MathRand) where
  -- What `Obfuscate` leaves in the slice: the seed, then an encoded output.
  pub record Wire (cid : List ℕ) (seed : ℕ) (wire : List ℕ) : Type 0 where
    pub indices : List ℕ
    pub output : List ℕ
    pub returns : obfuscate m cid seed ≡ some wire
    pub row : shuffled_indices m seed ≡ some indices
    pub perm : IsPermutation 112 indices
    pub layout : wire ≡ put_uint16 seed ++ output
    pub encoded : EncodedTo (take 7 cid) (noise_of seed) indices 56 output

  obfuscate-eq :
      (cid : List ℕ) (seed : ℕ) (indices output : List ℕ)
      → length cid ≡ 16
      → length output ≡ 14
      → shuffled_indices m seed ≡ some indices
      → encode_loop (take 7 cid) (noise_of seed) indices 56 0 (replicate 14 0) ≡ some output
      → obfuscate m cid seed ≡ some (put_uint16 seed ++ output)
  unfolding obfuscate
  obfuscate-eq cid seed indices output sized size row loop =
      rw
        (
          sized,
          row,
          copy_whole (replicate 7 0) (take 7 cid) (omega (arith, length-take 7 cid)),
          loop,
        )
        (ap (λ (x : List ℕ). some x)
          (ap₂ ◌++◌ (copy_whole (take 2 cid) (put_uint16 seed) (omega (arith, length-take 2 cid)))
            (copy_whole (drop 2 cid) output (omega (arith, length-drop 2 cid)))))

  pub obfuscate-Wire :
      (cid : List ℕ) (seed : ℕ)
      → length cid ≡ 16
      → seed < 2 ^ 16
      → (wire : List ℕ) × Wire cid seed wire
  obfuscate-Wire cid seed sized small =
      let r = shuffled_indices-IsPermutation m seed small in
      let e =
        encode_loop_lem (take 7 cid) (noise_of seed) r.0 (omega (arith, length-take 7 cid))
          (length-noise_of seed) r.2 in
      (
        put_uint16 seed ++ e.0,
        record {
          indices = r.0;
          output = e.0;
          returns = obfuscate-eq cid seed r.0 e.0 sized e.2.size r.1 e.1;
          row = r.1;
          perm = r.2;
          layout = refl;
          encoded = e.2;
        },
      )

  -- A hidden CID is 16 bytes long, and made of bytes.
  pub obfuscate-IsBytes :
      (cid wire : List ℕ) (seed : ℕ)
      → length cid ≡ 16
      → seed < 2 ^ 16
      → obfuscate m cid seed ≡ some wire
      → (length wire ≡ 16) × IsBytes wire
  obfuscate-IsBytes cid wire seed sized small sent =
      let w = obfuscate-Wire cid seed sized small in
      let front : IsBytes (put_uint16 seed) = put_uint16-IsBytes seed in
      let same : w.0 ≡ wire = cc (w.1.returns) in
      (
        rw (← same, w.1.layout)
            (omega (arith, length-append (put_uint16 seed) w.1.output, w.1.encoded.size)),
        rw (← same, w.1.layout)
            (append-IsBytes (put_uint16 seed) w.1.output front w.1.encoded.bytes),
      )

  write_back_lem :
      (recovered : List ℕ)
      → length recovered ≡ 7
      → write_back 16 recovered ≡ recovered ++ replicate 9 0
  unfolding write_back
  write_back_lem recovered h =
      ap (λ (x : List ℕ). x ++ replicate 9 0) (copy_whole (replicate 7 0) recovered (sym h))

  pub deobfuscate-eq :
      (cid indices recovered : List ℕ)
      → length cid ≡ 16
      → length recovered ≡ 7
      → shuffled_indices m (get_uint16 (take 2 cid)) ≡ some indices
      → decode_loop (drop 2 cid) indices 56 0 (replicate 7 0) ≡ some recovered
      → deobfuscate m cid ≡ some (recovered ++ replicate 9 0)
  unfolding deobfuscate
  deobfuscate-eq cid indices recovered sized rsize row loop =
      rw (sized, row, loop) (ap (λ (x : List ℕ). some x) (write_back_lem recovered rsize))

  recovered-eq-payload :
      (cid : List ℕ) (seed : ℕ) (indices output recovered : List ℕ)
      → length cid ≡ 16
      → IsBytes cid
      → EncodedTo (take 7 cid) (noise_of seed) indices 56 output
      → DecodedTo output indices 56 recovered
      → recovered ≡ take 7 cid
  recovered-eq-payload cid seed indices output recovered sized bytes e d =
      bit_at_ext recovered (take 7 cid) (omega (arith, d.size, length-take 7 cid)) d.bytes
        payload_bytes λ q h. same q (omega (arith, d.size))
    where
      payload_bytes : IsBytes (take 7 cid)
      payload_bytes = take-IsBytes 7 cid bytes

      same : (q : ℕ) → q < 56 → bit_at recovered q ≡ bit_at (take 7 cid) q
      same q h = ground (
        arith,
        d.bits q,
        e.slots q,
        e.slots (q + 56),
        bit_xor_undo (bit_at (noise_of seed) q) (bit_at (take 7 cid) q) (bit_at-lt _ _)
            (bit_at-lt _ _),
      )

  -- For every 16-byte CID and every 16-bit seed, `Obfuscate` returns a 16-byte slice that begins
  -- with the seed in big-endian order, and `Deobfuscate` of it returns the first 7 bytes of the CID
  -- followed by 9 zero bytes.
  pub deobfuscate-obfuscate :
      (cid : List ℕ) (seed : ℕ)
      → length cid ≡ 16
      → IsBytes cid
      → seed < 2 ^ 16
      → (wire : List ℕ) × (obfuscate m cid seed ≡ some wire)
        × (length wire ≡ 16)
        × (take 2 wire ≡ put_uint16 seed)
        × (deobfuscate m wire ≡ some (take 7 cid ++ replicate 9 0))
  deobfuscate-obfuscate cid seed sized bytes small =
      let w = obfuscate-Wire cid seed sized small in
      let e = w.1.encoded in
      let d = decode_loop_lem w.1.output w.1.indices e.size w.1.perm in
      (
        put_uint16 seed ++ w.1.output,
        w.1.returns ∙ ap (λ (x : List ℕ). some x) w.1.layout,
        omega (arith, e.size),
        refl,
        deobfuscate-eq (put_uint16 seed ++ w.1.output) w.1.indices d.0 (omega (arith, e.size))
              d.2.size (rw (get_uint16-put_uint16 seed small) (w.1.row)) d.1
            ∙ ap (λ (x : List ℕ). some (x ++ replicate 9 0))
                (recovered-eq-payload cid seed w.1.indices w.1.output d.0 sized bytes e d.2),
      )

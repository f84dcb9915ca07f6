-- ===== src/Algo/Codec.antt =====
-- `Obfuscate`, `Deobfuscate` and `Matches` of algo.go. A byte slice is a list, a call returns the
-- slice's new content, and `none` is a panic: a wrong length or an index out of range.
mod Bit
pub mod Encode
pub mod Decode
pub mod Laws
pub mod Checks
use quic_hop.Base.{
  ℕ, zero, suc, ◌+◌, ◌*◌, ◌%◌, ◌<◌, ◌≤◌, ◌^◌, List, [], ◌∷◌, ◌++◌, Bool, true, false, ◌&&◌, ◌||◌,
  Option, none, some, bit_and, bit_or, bit_xor, length, get_elem?, get_or, take, drop, replicate,
  u8, u16, ◌<<<◌, ◌>>>◌, ◌==◌, ltb, if◌then◌else◌, ◌>>=◌,
}
use quic_hop.Base.BitArray.{or_bit, read_bit}
use quic_hop.Config.{payload_bytes, payload_bits, encoded_bytes, output_bytes, seed_bytes}
use quic_hop.Algo.Fnv.{shared_secret_hash}
use quic_hop.Algo.Rng.{MathRand, lcg}
use quic_hop.Algo.Indices.{shuffled_indices}

-- `copy(dst, src)`: the bytes that fit.
abbrev pub copy : List ℕ → List ℕ → List ℕ
copy dst src = take (length dst) src ++ drop (length src) dst

-- `binary.BigEndian.PutUint16` into two bytes, and `Uint16` of two.
abbrev pub put_uint16 : ℕ → List ℕ
put_uint16 v = u8 (v >>> 8) ∷ u8 v ∷ []

abbrev pub get_uint16 : List ℕ → ℕ
get_uint16 b = bit_or (get_or b 1 0) (get_or b 0 0 <<< 8)

-- `noise[i] = byte(state >> (8 * (i % 8)))`, with a new state after each eighth byte.
unfoldable pub noise_loop : ℕ → ℕ → ℕ → List ℕ
noise_loop zero i state = []
noise_loop (suc left) i state =
    u8 (state >>> (8 * (i % 8))) ∷ noise_loop left (i + 1) (if i % 8 == 7 then lcg state else state)

unfoldable pub noise_of : ℕ → List ℕ
unfolding noise_loop
noise_of rng_seed = noise_loop payload_bytes 0 (lcg (bit_xor rng_seed shared_secret_hash))

-- `if b == 1 { arr[p>>3] |= (1 << (p & 7)) }`
unfoldable pub or_bit_if : ℕ → List ℕ → ℕ → Option (List ℕ)
or_bit_if b arr p = if b == 1 then or_bit arr p else some arr

-- The body of `Obfuscate`'s loop at payload bit `i`.
unfoldable pub encode_bit : List ℕ → List ℕ → List ℕ → ℕ → List ℕ → Option (List ℕ)
unfolding or_bit_if
encode_bit payload noise indices i output = do
  m ← read_bit payload i
  r ← read_bit noise i
  real_pos ← get_elem? indices i
  noise_pos ← get_elem? indices (i + payload_bits)
  output' ← or_bit_if r output noise_pos
  or_bit_if (bit_xor r m) output' real_pos

unfoldable pub encode_loop : List ℕ → List ℕ → List ℕ → ℕ → ℕ → List ℕ → Option (List ℕ)
unfolding encode_bit
encode_loop payload noise indices zero i output = some output
encode_loop payload noise indices (suc left) i output = do
  output' ← encode_bit payload noise indices i output
  encode_loop payload noise indices left (i + 1) output'

-- The body of `Deobfuscate`'s loop at payload bit `i`.
unfoldable pub decode_bit : List ℕ → List ℕ → ℕ → List ℕ → Option (List ℕ)
unfolding or_bit_if
decode_bit cipher indices i recovered = do
  real_pos ← get_elem? indices i
  noise_pos ← get_elem? indices (i + payload_bits)
  val_real ← read_bit cipher real_pos
  val_noise ← read_bit cipher noise_pos
  or_bit_if (bit_xor val_real val_noise) recovered i

unfoldable pub decode_loop : List ℕ → List ℕ → ℕ → ℕ → List ℕ → Option (List ℕ)
unfolding decode_bit
decode_loop cipher indices zero i recovered = some recovered
decode_loop cipher indices (suc left) i recovered = do
  recovered' ← decode_bit cipher indices i recovered
  decode_loop cipher indices left (i + 1) recovered'

-- The slice is cleared, and the recovered bytes go to its front.
unfoldable pub write_back : ℕ → List ℕ → List ℕ
write_back n recovered =
    let zeroed = replicate n 0 in
    copy (take payload_bytes zeroed) recovered ++ drop payload_bytes zeroed

module _ (m : MathRand) where
  unfoldable pub obfuscate : List ℕ → ℕ → Option (List ℕ)
  unfolding noise_of encode_loop
  obfuscate cid rng_seed =
      if length cid == output_bytes
      then (do
        indices ← shuffled_indices m rng_seed
        output ←
            encode_loop (copy (replicate payload_bytes 0) (take payload_bytes cid))
              (noise_of rng_seed) indices payload_bits 0 (replicate encoded_bytes 0)
        some
            (copy (take seed_bytes cid) (put_uint16 rng_seed) ++ copy (drop seed_bytes cid) output))
      else none

  unfoldable pub deobfuscate : List ℕ → Option (List ℕ)
  unfolding decode_loop
  deobfuscate cid =
      if length cid == output_bytes
      then (do
        indices ← shuffled_indices m (get_uint16 (take seed_bytes cid))
        recovered ←
            decode_loop (drop seed_bytes cid) indices payload_bits 0 (replicate payload_bytes 0)
        some (write_back (length cid) recovered))
      else none

-- `BytesEqual` of conn.go: the lengths first, then byte by byte.
unfoldable pub bytes_equal : List ℕ → List ℕ → Bool
bytes_equal [] [] = true
bytes_equal [] (y ∷ ys) = false
bytes_equal (x ∷ xs) [] = false
bytes_equal (x ∷ xs) (y ∷ ys) = x == y && bytes_equal xs ys

unfoldable pub matches : List ℕ → List ℕ → Bool
unfolding bytes_equal
matches wire_cid_decoded real_cid =
    if ltb (length wire_cid_decoded) payload_bytes || ltb (length real_cid) payload_bytes
    then false
    else bytes_equal (take payload_bytes wire_cid_decoded) (take payload_bytes real_cid)

-- ===== src/Tests.antt =====
-- Concrete inputs: a stand-in for Go's `math/rand`, two CIDs, and caches that know them.
mod Codec
mod Calibration
mod Session
mod Pump
mod Sockets
mod Task
mod Auto
mod Conn
mod Network
mod Lifecycle
mod Programs
mod Rendezvous
use native.Mathlib.Nat.{mod-lt}
use quic_hop.Base.{
  ℕ, zero, suc, ◌+◌, ◌%◌, ◌<◌, ◌^◌, ◌≡◌, refl, ap, ◌∙◌, ◌≢◌, List, [], ◌∷◌, Option, none, some,
  arith, Bool, true, ltb, ◌&&◌, take, replicate,
}
use quic_hop.Algo.Rng.{MathRand}
use quic_hop.Algo.Indices.{shuffled_indices, indices_row, shuffled_indices_at}
use quic_hop.Algo.Codec.{obfuscate, deobfuscate, get_uint16, encode_loop, noise_of}
use quic_hop.Base.BitArray.{IsBytes, or_bit, read_bit}
use quic_hop.Algo.Shuffle.{shuffle_loop, upto, swap}
use quic_hop.Algo.Fnv.{fnv_write, shared_secret_hash}
use quic_hop.Algo.Codec.{encode_bit, or_bit_if, noise_loop}
use quic_hop.Algo.Rng.{lcg}
use quic_hop.Session.{CidCache, new_cid_cache, add_real}
use quic_hop.Conn.Conversation.Received.{Knows, first-Knows}

-- A generator that counts.
abbrev pub counter_rand : MathRand
counter_rand = record {
  Rand = ℕ;
  new_rand = λ seed. seed;
  uint64 = λ r. (r, r + 1);
  uint32 = λ r. (r, r + 1);
  intn = λ n r. (r % n, r + 1);
  intn_lt = λ n r h. mod-lt r {m = n} h;
}

abbrev pub first_cid : List ℕ
first_cid = 1 ∷ 2 ∷ 3 ∷ 4 ∷ 5 ∷ 6 ∷ 7 ∷ 8 ∷ 9 ∷ 10 ∷ 11 ∷ 12 ∷ 13 ∷ 14 ∷ 15 ∷ 16 ∷ []

-- Written in place of `first_cid` under seed 7.
abbrev pub hidden_cid : List ℕ
hidden_cid =
    0 ∷ 7 ∷ 164 ∷ 107 ∷ 58 ∷ 79 ∷ 54 ∷ 224 ∷ 211 ∷ 137 ∷ 210 ∷ 169 ∷ 120 ∷ 173 ∷ 250 ∷ 74 ∷ []

abbrev pub all_bytes : List ℕ → Bool
all_bytes [] = true
all_bytes (x ∷ xs) = ltb x 256 && all_bytes xs

pub all_bytes-IsBytes : (xs : List ℕ) → all_bytes xs ≡ true → IsBytes xs
all_bytes-IsBytes [] h i = omega arith
all_bytes-IsBytes (x ∷ xs) h zero = ground (arith, h)
all_bytes-IsBytes (x ∷ xs) h (suc i) = all_bytes-IsBytes xs (ground (arith, h)) i

pub first_cid-IsBytes : IsBytes first_cid
first_cid-IsBytes = all_bytes-IsBytes first_cid refl

row_of : ℕ → List ℕ
row_of s = elim (indices_row counter_rand s) [ some row ↦ row | none ↦ [] ]

shuffled_indices-eq-row_of_7 : shuffled_indices counter_rand 7 ≡ some (row_of 7)
unfolding row_of shuffle_loop upto indices_row swap fnv_write shared_secret_hash
shuffled_indices-eq-row_of_7 = rw (shuffled_indices_at counter_rand 7 (omega arith)) refl

shuffled_indices-eq-row_of_258 : shuffled_indices counter_rand 258 ≡ some (row_of 258)
unfolding row_of shuffle_loop upto indices_row swap fnv_write shared_secret_hash
shuffled_indices-eq-row_of_258 = rw (shuffled_indices_at counter_rand 258 (omega arith)) refl

pub obfuscate-first_cid : obfuscate counter_rand first_cid 7 ≡ some hidden_cid
unfolding obfuscate
obfuscate-first_cid = rw shuffled_indices-eq-row_of_7 (
    unfold encode_loop encode_bit or_bit_if or_bit read_bit noise_of noise_loop lcg row_of
      shuffle_loop upto indices_row swap fnv_write shared_secret_hash in
    refl)

-- The same under the seed that the CID's own first two bytes spell.
abbrev own_hidden : List ℕ
own_hidden =
    1 ∷ 2 ∷ 172 ∷ 165 ∷ 232 ∷ 186 ∷ 108 ∷ 13 ∷ 32 ∷ 124 ∷ 40 ∷ 241 ∷ 225 ∷ 255 ∷ 148 ∷ 141 ∷ []

obfuscate_own_seed : obfuscate counter_rand first_cid 258 ≡ some own_hidden
unfolding obfuscate
obfuscate_own_seed = rw shuffled_indices-eq-row_of_258 (
    unfold encode_loop encode_bit or_bit_if or_bit read_bit noise_of noise_loop lcg row_of
      shuffle_loop upto indices_row swap fnv_write shared_secret_hash in
    refl)

pub first_cid_moves :
    obfuscate counter_rand first_cid (get_uint16 (take 2 first_cid)) ≢ some first_cid
first_cid_moves e = absurd (cc (obfuscate_own_seed))

-- A CID that starts with the same 7 bytes.
abbrev pub second_cid : List ℕ
second_cid = 1 ∷ 2 ∷ 3 ∷ 4 ∷ 5 ∷ 6 ∷ 7 ∷ 9 ∷ 9 ∷ 9 ∷ 9 ∷ 9 ∷ 9 ∷ 9 ∷ 9 ∷ 9 ∷ []

pub second_cid-IsBytes : IsBytes second_cid
second_cid-IsBytes = all_bytes-IsBytes second_cid refl

pub hidden_cid-IsBytes : IsBytes hidden_cid
hidden_cid-IsBytes = all_bytes-IsBytes hidden_cid refl

-- A cache after the first CID arrived.
abbrev pub first_cache : CidCache
first_cache = add_real new_cid_cache first_cid

pub first_cache-Knows : Knows first_cid first_cache
first_cache-Knows = first-Knows first_cid first_cid-IsBytes

pub differs : hidden_cid ≢ first_cid
differs e = absurd (cc e)

pub starts : take 7 first_cid ≢ replicate 7 0
starts e = absurd (cc e)

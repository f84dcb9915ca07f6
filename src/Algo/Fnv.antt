-- ===== src/Algo/Fnv.antt =====
-- Hashing. `hash/fnv`'s New64a starts from the offset and folds each byte in; algo.go hashes the
-- shared secret alone, or the secret followed by a key.
use quic_hop.Base.{ℕ, ◌*◌, List, [], ◌∷◌, u64, bit_xor}
use quic_hop.Config.{shared_secret}

-- `h.Write(bytes)` from the state `h`.
unfoldable pub fnv_write : ℕ → List ℕ → ℕ
fnv_write h [] = h
fnv_write h (b ∷ bs) = fnv_write (u64 (bit_xor h b * 1099511628211)) bs

abbrev pub fnv_offset : ℕ
fnv_offset = 14695981039346656037

-- The 64 bits of `int64(h.Sum64())` of the secret.
unfoldable pub shared_secret_hash : ℕ
unfolding fnv_write
shared_secret_hash = fnv_write fnv_offset shared_secret

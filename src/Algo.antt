-- ===== src/Algo.antt =====
-- pkg/magic/algo.go, one module for each part: hashing, the generators, the index table and the
-- codec that hides 56 bits of a connection ID among as many noise bits.
pub mod Fnv
pub mod Rng
pub mod Shuffle
pub mod Indices
pub mod Codec
pub mod Mask

-- ===== src/Floats.antt =====
-- Go's `float64`, as far as the programs compute with it: a parameter, with the conversions to and
-- from `uint64` and text.
use quic_hop.Base.{ℕ, ◌^◌, ◌<◌, List, Bool}

pub record Floats : Type 1 where
  pub Float : Type 0
  pub of_uint64 : ℕ → Float
  pub to_uint64 : Float → ℕ
  pub mul : Float → Float → Float
  pub div : Float → Float → Float
  pub add : Float → Float → Float
  pub sub : Float → Float → Float
  pub is_positive : Float → Bool
  pub is_zero : Float → Bool
  pub parse : List ℕ → Float
  pub seconds : ℕ → Float
  pub format : ℕ → Float → List ℕ
  pub to_uint64_lt : (x : Float) → to_uint64 x < 2 ^ 64

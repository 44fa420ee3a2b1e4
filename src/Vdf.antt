-- ===== src/Vdf.antt =====
-- pebble-core/vdf: the time-lock puzzles of the ballots.
pub mod BigInt
pub mod Pietrzak
use pebble_voting_app.Base.{ℕ, Bytes, Result}

-- vdf.go
pub record VdfSolution : Type 0 where
  pub input : Bytes
  pub output : Bytes
  pub proof : Bytes

-- The interface that the election uses.
pub record Vdf : Type 0 where
  pub create : (seconds : ℕ) → Result VdfSolution
  pub solve : (input : Bytes) → Result VdfSolution
  pub verify : VdfSolution → Result (Unit {0})

-- ===== src/Float64.antt =====
-- The `f64` arithmetic that the program calls, and the random draw: parameters of the model. A
-- `Duration` is its number of nanoseconds.
use coapum.Prelude.{ℕ, Bool}

pub record Float64 : Type 1 where
  pub Num : Type 0
  pub one : Num
  pub leb : Num → Num → Bool
  pub max : Num → Num → Num
  pub mul : Num → Num → Num
  -- `n as f64`, for a `u64`
  pub of_u64 : ℕ → Num
  -- `Duration::mul_f64`
  pub mul_f64 : ℕ → Num → ℕ
  -- `rand::rng().random_range(a..b)`; the last argument is what the generator draws
  pub random_range : Num → Num → ℕ → Num

-- ===== src/Samples.antt =====
-- Sample values of the model's parameters, for the tests and the examples.
pub mod Pointer
pub mod Packets
use coapum.Prelude.{ℕ, ◌+◌, ◌-◌, ◌*◌, ◌/◌, ◌%◌, leb, max}
use coapum.Float64.{Float64}

-- Numbers in thousandths.
abbrev pub thousandths : Float64
thousandths = record {
  Num = ℕ;
  one = 1000;
  leb = λ a b. leb a b;
  max = λ a b. max a b;
  mul = λ a b. a * b / 1000;
  of_u64 = λ n. n * 1000;
  mul_f64 = λ d a. d * a / 1000;
  random_range = λ a b draw. a + draw % (b - a);
}

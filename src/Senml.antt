-- ===== src/Senml.antt =====
-- The crate coapum-senml: SenML records (RFC 8428), packs, their normal form and their codec.
-- The text of an error's message is not modelled, but the field that it names is.
pub mod Base64
pub mod Record
pub mod Pack
pub mod Normalize
pub mod Builder
pub mod Cbor
pub mod Json
pub mod Validation
mod Tests
use coapum.Prelude.{ℕ, ℤ, Bool, true, String, ◌≡◌}

-- `SenMLError`
pub data SenmlError : Type 0 where
  missing_field invalid_field_value : String → SenmlError
  invalid_data validation_error serialization_error deserialization_error time_error : SenmlError
  unit_conversion_error normalization_error : SenmlError

-- What the crate calls of `f64`: a parameter of the model.
pub record Double : Type 1 where
  pub Num : Type 0
  pub zero : Num
  pub add : Num → Num → Num
  pub sub : Num → Num → Num
  pub eq : Num → Num → Bool
  pub lt : Num → Num → Bool
  pub le : Num → Num → Bool
  pub min : Num → Num → Num
  pub max : Num → Num → Num
  pub infinity : Num
  pub neg_infinity : Num
  pub is_finite : Num → Bool
  pub is_nan : Num → Bool
  -- `as i64`, and a numeral or an integer as an `f64`
  pub as_i64 : Num → ℤ
  pub of_int : ℤ → Num
  pub eq_zero : eq zero zero ≡ true

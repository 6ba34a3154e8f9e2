-- ===== src/Senml/Pack.antt =====
-- `SenMLPack` and `BaseValues` of coapum-senml/src/pack.rs.
pub mod Laws
use coapum.Prelude.{
  ℕ, ℤ, Bool, true, false, Option, none, some, List, [], ◌∷◌, ◌++◌, String, codes, is_empty, length,
  Result, ok, err, ◌>>◌, ensure, for_each, if◌then◌else◌,
}
use coapum.Senml.{Double, SenmlError, invalid_field_value, validation_error}
use coapum.Senml.Record
use coapum.Senml.Record.{SenmlRecord, has_base_fields, passes}

pub record SenmlPack (F : Type 0) : Type 0 where
  pub records : List (SenmlRecord F)

pub record BaseValues (F : Type 0) : Type 0 where
  pub bn : Option String
  pub bt : Option F
  pub bu : Option String
  pub bv : Option F
  pub bs : Option F
  pub bver : Option ℤ

-- An error of a record is reported as a validation error with its index.
abbrev pub as_validation : Result SenmlError (Unit {0}) → Result SenmlError (Unit {0})
as_validation (ok a) = ok a
as_validation (err e) = err validation_error

module _ {F : Type 0} where
  abbrev pub new : SenmlPack F
  new = record { records = [] }

  unfoldable pub with_base_values : BaseValues F → SenmlPack F
  with_base_values base = record {
    records =
        record Record.new {
          bn = base.bn;
          bt = base.bt;
          bu = base.bu;
          bv = base.bv;
          bs = base.bs;
          bver = base.bver;
        }
        ∷ [];
  }

  abbrev pub add_record : SenmlRecord F → SenmlPack F → SenmlPack F
  add_record r p = record { records = p.records ++ (r ∷ []) }

  abbrev pub add_records : List (SenmlRecord F) → SenmlPack F → SenmlPack F
  add_records rs p = record { records = p.records ++ rs }

  abbrev pub extract_base_values : SenmlRecord F → BaseValues F
  extract_base_values r = record {
    bn = r.bn;
    bt = r.bt;
    bu = r.bu;
    bv = r.bv;
    bs = r.bs;
    bver = r.bver;
  }

  abbrev no_base_values : BaseValues F
  no_base_values = record { bn = none; bt = none; bu = none; bv = none; bs = none; bver = none }

  abbrev base_values_of : List (SenmlRecord F) → BaseValues F
  base_values_of [] = no_base_values
  base_values_of (r ∷ rs) = extract_base_values r

  abbrev first_has_base : List (SenmlRecord F) → Bool
  first_has_base [] = false
  first_has_base (r ∷ rs) = has_base_fields r

  unfoldable pub base_values : SenmlPack F → BaseValues F
  base_values p = base_values_of p.records

  unfoldable pub has_base_values : SenmlPack F → Bool
  has_base_values p = first_has_base p.records

module _ (float : Double) where
  abbrev pub validate_each : SenmlRecord float.Num → Result SenmlError (Unit {0})
  validate_each r = as_validation (Record.validate float r)

  unfoldable pub validate : SenmlPack float.Num → Result SenmlError (Unit {0})
  unfolding base_values
  validate p =
      if is_empty p.records
      then err validation_error
      else (for_each validate_each p.records
          >> ensure (passes float.is_finite (base_values p).bt) (invalid_field_value (codes "bt"))
          >> ensure (passes float.is_finite (base_values p).bv) (invalid_field_value (codes "bv"))
          >> ensure (passes float.is_finite (base_values p).bs) (invalid_field_value (codes "bs")))

-- ===== src/Senml/Json.antt =====
-- `to_json` and `from_json` of coapum-senml/src/pack.rs. The derived (de)serialisation of a pack by
-- serde_json is a parameter; a printed text is given as its bytes, which is what the callers take.
use coapum.Prelude.{String, Bytes, Result, ok, err}
use coapum.Senml.{SenmlError, serialization_error, deserialization_error}
use coapum.Senml.Pack.{SenmlPack}

pub record SerdeJson (F J : Type 0) : Type 0 where
  pub to_string : SenmlPack F → Result J Bytes
  pub from_str : String → Result J (SenmlPack F)

abbrev pub or_error : {A J : Type 0} → SenmlError → Result J A → Result SenmlError A
or_error e (ok a) = ok a
or_error e (err x) = err e

module _ {F J : Type 0} (serde_json : SerdeJson F J) where
  unfoldable pub to_json : SenmlPack F → Result SenmlError Bytes
  to_json pack = or_error serialization_error (serde_json.to_string pack)

  unfoldable pub from_json : String → Result SenmlError (SenmlPack F)
  from_json text = or_error deserialization_error (serde_json.from_str text)

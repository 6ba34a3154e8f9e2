-- ===== src/Extract/Payload/Senml.antt =====
-- `SenML` of src/extract/payload.rs, with the codecs of coapum-senml; the errors carry no text.
use coapum.Prelude.{ℕ, Option, none, some, Bytes, String, is_empty, Result, ok, err, if◌then◌else◌}
use coapum.Utf8.{from_utf8}
use coapum.Senml.{Double, SenmlError}
use coapum.Senml.Pack.{SenmlPack}
use coapum.Senml.Cbor.{Ciborium, from_cbor}
use coapum.Senml.Json.{SerdeJson, to_json, from_json}
use coapum.Extract.Payload.{
  ContentFormat, application_cbor, application_json, application_senml_json, application_senml_cbor,
  other_format, Message, Response, ResponseError, with_payload, StatusCode, bad_request,
  request_entity_too_large, is_longer,
}

pub data SenmlRejectionKind : Type 0 where
  invalid_senml_data : SenmlRejectionKind
  unsupported_content_format : SenmlRejectionKind
  empty_payload : SenmlRejectionKind
  payload_too_large : SenmlRejectionKind

-- `SenMLRejection::into_response`
unfoldable pub rejection_status : SenmlRejectionKind → StatusCode
rejection_status invalid_senml_data = bad_request
rejection_status unsupported_content_format = StatusCode.unsupported_content_format
rejection_status empty_payload = bad_request
rejection_status payload_too_large = request_entity_too_large

abbrev pub max_senml_payload_size : ℕ
max_senml_payload_size = 1_048_576

-- The extractor takes what its codecs call of the libraries ciborium and serde_json, and how ciborium
-- takes the bytes of a payload.
module _ {J : Type 0} (double : Double) (cbor : Ciborium double.Num) (wire : Bytes → cbor.Wire)
    (serde_json : SerdeJson double.Num J) where
  abbrev Pack : Type 0
  Pack = SenmlPack double.Num

  abbrev pub checked : Result SenmlError Pack → Result SenmlRejectionKind Pack
  checked (ok pack) = ok pack
  checked (err e) = err invalid_senml_data

  abbrev pub parse_text : Option String → Result SenmlRejectionKind Pack
  parse_text none = err invalid_senml_data
  parse_text (some text) = checked (from_json serde_json text)

  -- The pack where the payload is JSON, or what CBOR gives.
  abbrev pub or_cbor : Result SenmlError Pack → Result SenmlError Pack → Result SenmlError Pack
  or_cbor (ok pack) from_binary = ok pack
  or_cbor (err e) from_binary = from_binary

  abbrev pub detected : Option String → Result SenmlError Pack → Result SenmlError Pack
  detected none from_binary = from_binary
  detected (some text) from_binary = or_cbor (from_json serde_json text) from_binary

  -- The pack by the content format, by trial where there is none.
  abbrev pub parse : Option ContentFormat → Bytes → Result SenmlRejectionKind Pack
  parse (some application_senml_json) payload = parse_text (from_utf8 payload)
  parse (some application_senml_cbor) payload = checked (from_cbor double cbor (wire payload))
  parse (some application_json) payload = parse_text (from_utf8 payload)
  parse (some application_cbor) payload = checked (from_cbor double cbor (wire payload))
  parse (some (other_format n)) payload = err unsupported_content_format
  parse none payload = checked (detected (from_utf8 payload) (from_cbor double cbor (wire payload)))

  unfoldable pub from_request : Message → Result SenmlRejectionKind Pack
  unfolding from_cbor from_utf8 from_json
  from_request m =
      if is_empty m.payload
      then err empty_payload
      else if is_longer max_senml_payload_size m.payload
      then err payload_too_large
      else parse m.content_format m.payload

  -- `SenML::into_response`, where `fresh` is what `CoapResponse::new` gives.
  unfoldable pub into_response : Option Response → Pack → Result ResponseError Response
  unfolding to_json
  into_response fresh pack = with_payload fresh (to_json serde_json pack) application_senml_json

-- ===== src/Extract/Payload/Json.antt =====
-- `Json<T>` of src/extract/payload.rs. The parser is a parameter.
use coapum.Prelude.{
  ℕ, Bool, true, false, Option, none, some, Bytes, String, is_empty, Result, ok, err, if◌then◌else◌,
}
use coapum.Extract.Payload.{
  ContentFormat, application_cbor, application_json, application_senml_json, application_senml_cbor,
  other_format, Message, StatusCode, bad_request, unsupported_content_format,
  request_entity_too_large, is_longer,
}

pub data JsonRejectionKind : Type 0 where
  invalid_json_data : String → JsonRejectionKind
  missing_json_content_type : JsonRejectionKind
  empty_payload : JsonRejectionKind
  payload_too_large : JsonRejectionKind

-- `JsonRejection::into_response`
unfoldable pub rejection_status : JsonRejectionKind → StatusCode
rejection_status (invalid_json_data e) = bad_request
rejection_status missing_json_content_type = unsupported_content_format
rejection_status empty_payload = bad_request
rejection_status payload_too_large = request_entity_too_large

abbrev pub max_json_payload_size : ℕ
max_json_payload_size = 1_048_576

abbrev pub is_json_format : Option ContentFormat → Bool
is_json_format none = true
is_json_format (some application_json) = true
is_json_format (some application_cbor) = false
is_json_format (some application_senml_json) = false
is_json_format (some application_senml_cbor) = false
is_json_format (some (other_format n)) = false

abbrev pub parsed : {T : Type 0} → Result String T → Result JsonRejectionKind T
parsed (ok x) = ok x
parsed (err text) = err (invalid_json_data text)

-- `Json::from_request`
unfoldable pub from_request :
    {T : Type 0} → (Bytes → Result String T) → Message → Result JsonRejectionKind T
from_request parser m =
    if is_empty m.payload
    then err empty_payload
    else if is_longer max_json_payload_size m.payload
    then err payload_too_large
    else if is_json_format m.content_format
    then parsed (parser m.payload)
    else err missing_json_content_type

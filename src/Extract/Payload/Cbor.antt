-- ===== src/Extract/Payload/Cbor.antt =====
-- `Cbor<T>` of src/extract/payload.rs. The decoder and the text of its errors are parameters.
use coapum.Prelude.{
  ℕ, Bool, true, false, Option, none, some, Bytes, String, is_empty, codes, Result, ok, err,
  if◌then◌else◌,
}
use coapum.Str.{contains}
use coapum.Extract.Payload.{
  ContentFormat, application_cbor, application_json, application_senml_json, application_senml_cbor,
  other_format, Message, StatusCode, bad_request, unsupported_content_format,
  request_entity_too_large, is_longer,
}

pub data CborRejectionKind : Type 0 where
  invalid_cbor_data : String → CborRejectionKind
  missing_cbor_content_type : CborRejectionKind
  empty_payload : CborRejectionKind
  payload_too_large : CborRejectionKind
  recursion_limit_exceeded : CborRejectionKind

-- `CborRejection::into_response`
unfoldable pub rejection_status : CborRejectionKind → StatusCode
rejection_status (invalid_cbor_data e) = bad_request
rejection_status missing_cbor_content_type = unsupported_content_format
rejection_status empty_payload = bad_request
rejection_status payload_too_large = request_entity_too_large
rejection_status recursion_limit_exceeded = bad_request

abbrev pub max_cbor_payload_size : ℕ
max_cbor_payload_size = 8192

abbrev pub max_cbor_recursion_depth : ℕ
max_cbor_recursion_depth = 32

abbrev pub is_cbor_format : Option ContentFormat → Bool
is_cbor_format none = true
is_cbor_format (some application_cbor) = true
is_cbor_format (some application_json) = false
is_cbor_format (some application_senml_json) = false
is_cbor_format (some application_senml_cbor) = false
is_cbor_format (some (other_format n)) = false

-- A decoder's error by its text.
unfoldable pub decode_error : String → CborRejectionKind
unfolding contains
decode_error text =
    if contains (codes "recursion") text then recursion_limit_exceeded else invalid_cbor_data text

abbrev pub parsed : {T : Type 0} → Result String T → Result CborRejectionKind T
parsed (ok x) = ok x
parsed (err text) = err (decode_error text)

-- `Cbor::from_request`, where the reader takes its limit of the depth.
unfoldable pub from_request :
    {T : Type 0} → (ℕ → Bytes → Result String T) → Message → Result CborRejectionKind T
unfolding decode_error
from_request reader m =
    if is_empty m.payload
    then err empty_payload
    else if is_longer max_cbor_payload_size m.payload
    then err payload_too_large
    else if is_cbor_format m.content_format
    then parsed (reader max_cbor_recursion_depth m.payload)
    else err missing_cbor_content_type

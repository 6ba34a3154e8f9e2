-- ===== src/Extract/Payload.antt =====
-- src/extract/payload.rs: the extractors that parse a payload, and the responses that carry one. Of a
-- request they read the payload and the content format, which `Message` has.
pub mod Cbor
pub mod Json
pub mod Senml
pub mod Accepts
pub mod RoundTrip
mod Tests
use coapum.Prelude.{
  ℕ, Bool, true, false, Option, none, some, String, Bytes, length, ltb, Result, ok, err,
}

-- The content formats of `coap_lite` that the extractors name, and the others by their numbers.
pub data ContentFormat : Type 0 where
  application_json application_cbor application_senml_json application_senml_cbor : ContentFormat
  other_format : ℕ → ContentFormat

pub record Message : Type 0 where
  pub payload : Bytes
  pub content_format : Option ContentFormat

-- The statuses that a rejection becomes, and the one of a response with a payload.
pub data StatusCode : Type 0 where
  bad_request unsupported_content_format request_entity_too_large content : StatusCode

pub record Response : Type 0 where
  pub status : StatusCode
  pub message : Message

pub data ResponseError : Type 0 where
  serialization_error invalid_response : ResponseError

-- A response with a payload, from what `CoapResponse::new` gives and the serializer returns.
abbrev pub with_payload :
    {J : Type 0} → Option Response → Result J Bytes → ContentFormat → Result ResponseError Response
with_payload none payload format = err invalid_response
with_payload (some response) (err e) format = err serialization_error
with_payload (some response) (ok payload) format = ok (record response {
  status = content;
  message = record { payload = payload; content_format = some format };
})

abbrev pub is_longer : ℕ → Bytes → Bool
is_longer limit payload = ltb limit (length payload)

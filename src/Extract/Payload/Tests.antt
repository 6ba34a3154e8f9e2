-- ===== src/Extract/Payload/Tests.antt =====
-- The theorem on the CBOR extractor at a concrete request.
use coapum.Prelude.{ℕ, ◌≤◌, ◌<◌, ◌≡◌, ◌↔◌, some, [], ◌∷◌, Bytes, String, length, Result, ok, err}
use coapum.Extract.Payload.{
  Message, application_cbor, unsupported_content_format, request_entity_too_large,
}
use coapum.Extract.Payload.Cbor
use coapum.Extract.Payload.Accepts.{from_request-eq-ok_iff, refusal, MayBeCbor}

abbrev reader : ℕ → Bytes → Result String ℕ
reader depth [] = err []
reader depth (b ∷ bytes) = ok b

abbrev message : Message
message = record { payload = 7 ∷ 8 ∷ []; content_format = some application_cbor }

from_request-eq-ok_iff_example :
    ((Cbor.from_request reader message ≡ ok 7) ↔ (
      (1 ≤ length message.payload)
      × (length message.payload ≤ 8192)
      × MayBeCbor message.content_format
      × (reader 32 message.payload ≡ ok 7)))
    × ((refusal (Cbor.from_request reader message) ≡ some request_entity_too_large)
        ↔ (8192 < length message.payload))
    × ((refusal (Cbor.from_request reader message) ≡ some unsupported_content_format) ↔ (
        (1 ≤ length message.payload)
        × (length message.payload ≤ 8192)
        × ¬ (MayBeCbor message.content_format)))
from_request-eq-ok_iff_example = from_request-eq-ok_iff reader message 7

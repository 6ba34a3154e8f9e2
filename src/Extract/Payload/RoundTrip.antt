-- ===== src/Extract/Payload/RoundTrip.antt =====
-- The extractor of packs against the CBOR codec of packs.
use coapum.Prelude.{
  ◌≤◌, ◌/◌, ◌≡◌, ◌⊎◌, inl, inr, refl, true, false, none, some, [], ◌∷◌, All, Bytes, is_empty,
  length, ok, arith,
}
use coapum.Utf8.{from_utf8, from_utf8_of_continuation}
use coapum.Senml.{Double}
use coapum.Senml.Pack.{SenmlPack}
use coapum.Senml.Cbor.{Ciborium, to_cbor, from_cbor, is_cbor_array}
use coapum.Senml.Cbor.RoundTrip.{HasVersion32, from_cbor-to_cbor}
use coapum.Senml.Json.{SerdeJson}
use coapum.Extract.Payload.{application_cbor, application_senml_cbor, Message, is_longer}
use coapum.Extract.Payload.Senml

-- A content format under which a payload is taken for CBOR: one of the two formats that say so, or
-- none, if the payload begins as an array of CBOR does.
abbrev pub AnnouncesCbor : Message → Type 0
AnnouncesCbor m =
    (m.content_format ≡ some application_senml_cbor)
    ⊎ (m.content_format ≡ some application_cbor)
    ⊎ (m.content_format ≡ none) × (is_cbor_array m.payload ≡ true)

from_utf8-is_cbor_array :
    (payload : Bytes) → is_cbor_array payload ≡ true → from_utf8 payload ≡ none
unfolding is_cbor_array
from_utf8-is_cbor_array [] e = absurd cc
from_utf8-is_cbor_array (b ∷ payload) e =
    let major : b / 32 ≡ 4 = ground (arith, e) in
    from_utf8_of_continuation b payload (omega arith) (omega arith)

full-payload : (payload : Bytes) → 1 ≤ length payload → is_empty payload ≡ false
full-payload [] h = absurd (omega arith)
full-payload (b ∷ payload) h = refl

module _ {J : Type 0} (double : Double) (cbor : Ciborium double.Num) (wire : Bytes → cbor.Wire)
    (serde_json : SerdeJson double.Num J) where
  parse-AnnouncesCbor :
      (m : Message) (pack : SenmlPack double.Num)
      → AnnouncesCbor m
      → from_cbor double cbor (wire m.payload) ≡ ok pack
      → Senml.parse double cbor wire serde_json m.content_format m.payload ≡ ok pack
  parse-AnnouncesCbor m pack (inl e) h = rw (e, h) refl
  parse-AnnouncesCbor m pack (inr (inl e)) h = rw (e, h) refl
  parse-AnnouncesCbor m pack (inr (inr (e, array))) h =
      rw (e, from_utf8-is_cbor_array m.payload array, h) refl

  -- A pack that is encoded as CBOR and sent in a request of 1 to 1048576 bytes is extracted from the
  -- request, whether the content format is senml+cbor, cbor, or not there and the payload begins as an
  -- array of CBOR does; the base versions of the pack have 32 bits, and ciborium reads back the value
  -- that it wrote.
  pub from_request-to_cbor :
      (m : Message) (pack : SenmlPack double.Num)
      → (1 ≤ length m.payload) × (length m.payload ≤ 1_048_576)
      → AnnouncesCbor m
      → All (HasVersion32 double cbor) pack.records
      → to_cbor double cbor pack ≡ ok (wire m.payload)
      → ((x : cbor.Value)
          → cbor.into_writer x ≡ ok (wire m.payload)
          → cbor.from_reader_with_recursion_limit 32 (wire m.payload) ≡ ok x)
      → Senml.from_request double cbor wire serde_json m ≡ ok pack
  unfolding Senml.from_request
  from_request-to_cbor m pack (full, bound) format versions written reads_back =
      let short : is_longer 1_048_576 m.payload ≡ false = ground arith in
      rw (full-payload m.payload full, short)
        (parse-AnnouncesCbor m pack format
          (from_cbor-to_cbor double cbor pack (wire m.payload) versions written reads_back))

-- ===== src/Extract/Payload/Accepts.antt =====
-- Which payloads the extractors accept.
use coapum.Prelude.{
  ℕ, ◌≤◌, ◌<◌, ◌≡◌, ◌≢◌, ◌⊎◌, ◌↔◌, refl, Bool-cases, true, false, inl, inr, Option, none, some, [],
  ◌∷◌, codes, Bytes, String, is_empty, length, Result, ok, err, arith,
}
use coapum.Str.{contains}
use coapum.Extract.Payload.{
  Message, is_longer, application_senml_json, ContentFormat, application_cbor, application_json,
  application_senml_cbor, other_format, StatusCode, bad_request, unsupported_content_format,
  request_entity_too_large,
}
use coapum.Extract.Payload.Cbor
use coapum.Extract.Payload.Cbor.{CborRejectionKind, is_cbor_format}

length-empty : (s : Bytes) → is_empty s ≡ true → length s ≡ 0
length-empty [] e = refl
length-empty (b ∷ s) e = absurd cc

length-full : (s : Bytes) → is_empty s ≡ false → 1 ≤ length s
length-full [] e = absurd cc
length-full (b ∷ s) e = omega arith

parsed-eq-ok : {T : Type 0} (r : Result String T) (x : T) → Cbor.parsed r ≡ ok x → r ≡ ok x
parsed-eq-ok (ok y) x h = cc
parsed-eq-ok (err e) x h = absurd cc

-- The content format of a request that may carry CBOR: it is not there, or it is CBOR's.
abbrev pub MayBeCbor : Option ContentFormat → Type 0
MayBeCbor format = (format ≡ none) ⊎ (format ≡ some application_cbor)

MayBeCbor-is_cbor_format :
    (format : Option ContentFormat) → MayBeCbor format → is_cbor_format format ≡ true
MayBeCbor-is_cbor_format format (inl e) = rw e refl
MayBeCbor-is_cbor_format format (inr e) = rw e refl

is_cbor_format-MayBeCbor :
    (format : Option ContentFormat) → is_cbor_format format ≡ true → MayBeCbor format
is_cbor_format-MayBeCbor none e = inl refl
is_cbor_format-MayBeCbor (some application_cbor) e = inr refl
is_cbor_format-MayBeCbor (some application_json) e = absurd cc
is_cbor_format-MayBeCbor (some application_senml_json) e = absurd cc
is_cbor_format-MayBeCbor (some application_senml_cbor) e = absurd cc
is_cbor_format-MayBeCbor (some (other_format n)) e = absurd cc

-- The status that answers a request whose payload is refused.
abbrev pub refusal : {T : Type 0} → Result CborRejectionKind T → Option StatusCode
refusal (ok x) = none
refusal (err kind) = some (Cbor.rejection_status kind)

refusal-parsed :
    {T : Type 0} (r : Result String T)
    → (refusal (Cbor.parsed r) ≡ none) ⊎ (refusal (Cbor.parsed r) ≡ some bad_request)
unfolding Cbor.rejection_status Cbor.decode_error
refusal-parsed (ok x) = inl refl
refusal-parsed (err text) = elim (Bool-cases (contains (codes "recursion") text)) [
  | inl e ↦ rw e (inr refl)
  | inr e ↦ rw e (inr refl)
]

other_refusal :
    {A : Type 0} (o : Option StatusCode) (status : StatusCode)
    → (o ≡ none) ⊎ (o ≡ some bad_request)
    → bad_request ≢ status
    → o ≡ some status
    → A
other_refusal o status (inl e) n h = absurd (cc)
other_refusal o status (inr e) n h = absurd (n (cc))

-- A request is given to a handler as CBOR exactly if its payload has 1 to 8192 bytes, its content
-- format is not there or is application/cbor, and the reader with a depth of 32 reads it. It is
-- answered with "request entity too large" exactly if the payload is longer, and with "unsupported
-- content format" exactly if the payload has 1 to 8192 bytes and another content format.
pub from_request-eq-ok_iff :
    {T : Type 0} (reader : ℕ → Bytes → Result String T) (m : Message) (x : T)
    → ((Cbor.from_request reader m ≡ ok x) ↔ (
        (1 ≤ length m.payload)
        × (length m.payload ≤ 8192)
        × MayBeCbor m.content_format
        × (reader 32 m.payload ≡ ok x)))
      × ((refusal (Cbor.from_request reader m) ≡ some request_entity_too_large)
          ↔ (8192 < length m.payload))
      × ((refusal (Cbor.from_request reader m) ≡ some unsupported_content_format)
          ↔ ((1 ≤ length m.payload) × (length m.payload ≤ 8192) × ¬ (MayBeCbor m.content_format)))
unfolding Cbor.from_request Cbor.rejection_status
from_request-eq-ok_iff reader m x = elim (Bool-cases (is_empty m.payload)) [
  | inl e ↦
      let no_bytes : length m.payload ≡ 0 = length-empty m.payload e in
      rw e (
        (λ h. absurd cc, λ (h1, _, _, _). absurd (omega arith)),
        (λ h. absurd cc, λ h1. absurd (omega arith)),
        (λ h. absurd cc, λ (h1, _, _). absurd (omega arith)),
      )
  | inr e ↦
      let bytes : 1 ≤ length m.payload = length-full m.payload e in
      elim (Bool-cases (is_longer 8192 m.payload)) [
        | inl long ↦
            let longer : 8192 < length m.payload = ground arith in
            rw (e, long)
              (
                (λ h. absurd cc, λ (_, h2, _, _). absurd (omega arith)),
                (λ h. longer, λ h. refl),
                (λ h. absurd cc, λ (_, h2, _). absurd (omega arith)),
              )
        | inr short ↦
            let bound : length m.payload ≤ 8192 = ground arith in
            elim (Bool-cases (is_cbor_format m.content_format)) [
              | inl f ↦
                  let cbor = is_cbor_format-MayBeCbor m.content_format f in
                  rw (e, short, f)
                    (
                      (
                        λ h. (bytes, bound, cbor, parsed-eq-ok (reader 32 m.payload) x h),
                        λ (_, _, _, h4). rw h4 refl,
                      ),
                      (
                        other_refusal _ _ (refusal-parsed (reader 32 m.payload)) (λ h. cc),
                        λ h. absurd (omega arith),
                      ),
                      (
                        other_refusal _ _ (refusal-parsed (reader 32 m.payload)) (λ h. cc),
                        λ (_, _, h3). absurd (h3 cbor),
                      ),
                    )
              | inr f ↦
                  let other : ¬ (MayBeCbor m.content_format) =
                    λ h. let g = MayBeCbor-is_cbor_format m.content_format h in cc in
                  rw (e, short, f)
                    (
                      (λ h. absurd cc, λ (_, _, h3, _). absurd (other h3)),
                      (λ h. absurd cc, λ h. absurd (omega arith)),
                      (λ h. (bytes, bound, other), λ h. refl),
                    )
            ]
      ]
]

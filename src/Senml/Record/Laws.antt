-- ===== src/Senml/Record/Laws.antt =====
-- Which records are valid, and what is read of a value that was put in.
use coapum.Prelude.{
  ◌+◌, ◌≡◌, ◌↔◌, ◌⊎◌, inl, inr, refl, Bool, true, false, ◌||◌, some, All, is_some, ltb, Result, ok,
  err, ◌>>◌, ensure, arith,
}
use coapum.Senml.{Double, SenmlError}
use coapum.Senml.Base64.RoundTrip.{IsByte, base64_decode-encode}
use coapum.Senml.Record.{
  SenmlRecord, SenmlValue, number, string, boolean, bytes, value, from_value, data_of, has_value,
  value_count, passes, is_duration, validate, decodes, count_one,
}

-- The bytes of a binary value are bytes.
abbrev pub ValueIsBytes : {F : Type 0} → SenmlValue F → Type 0
ValueIsBytes (number x) = Unit
ValueIsBytes (string x) = Unit
ValueIsBytes (boolean x) = Unit
ValueIsBytes (bytes x) = All IsByte x

-- A value that a record is made of is read back from it, binary data through base64 too.
pub value-from_value :
    {F : Type 0} (x : SenmlValue F) → ValueIsBytes x → value (from_value x) ≡ some x
unfolding value from_value data_of
value-from_value (number x) h = refl
value-from_value (string x) h = refl
value-from_value (boolean x) h = refl
value-from_value (bytes x) h = rw (base64_decode-encode x h) refl

pub >>-eq-ok_iff :
    (m k : Result SenmlError (Unit {0})) → ((m >> k) ≡ ok tt) ↔ ((m ≡ ok tt) × (k ≡ ok tt))
>>-eq-ok_iff (ok tt) k = (λ h. (refl, h), λ (_, h). h)
>>-eq-ok_iff (err e) k = (λ h. cc, λ (h, _). cc)

pub ensure-eq-ok_iff : (b : Bool) (e : SenmlError) → (ensure b e ≡ ok tt) ↔ (b ≡ true)
ensure-eq-ok_iff true e = (λ _. refl, λ _. refl)
ensure-eq-ok_iff false e = (λ h. cc, λ h. cc)

-- One more test at the end of a chain.
pub ensured_iff :
    (m : Result SenmlError (Unit {0})) (b : Bool) (e : SenmlError)
    → ((m >> ensure b e) ≡ ok tt) ↔ ((m ≡ ok tt) × (b ≡ true))
ensured_iff m b e = (
  λ h. let (h1, h2) = (>>-eq-ok_iff m (ensure b e)).0 h in (h1, (ensure-eq-ok_iff b e).0 h2),
  λ (h1, h2). (>>-eq-ok_iff m (ensure b e)).1 (h1, (ensure-eq-ok_iff b e).1 h2),
)

-- The tests on the presence of a value, and what they come to.
counted :
    (a b c d e : Bool)
    → (((a || (b || (c || d))) || e) ≡ true)
      × (ltb (count_one a + count_one b + count_one c + count_one d) 2 ≡ true)
    → (count_one a + count_one b + count_one c + count_one d ≡ 1)
      ⊎ ((count_one a + count_one b + count_one c + count_one d ≡ 0) × (e ≡ true))
counted true b c d e (h, k) = inl (ground arith)
counted false true c d e (h, k) = inl (ground arith)
counted false false true d e (h, k) = inl (ground arith)
counted false false false true e (h, k) = inl refl
counted false false false false e (h, k) = inr (refl, h)

counted_back :
    (a b c d e : Bool)
    → (count_one a + count_one b + count_one c + count_one d ≡ 1)
      ⊎ ((count_one a + count_one b + count_one c + count_one d ≡ 0) × (e ≡ true))
    → (((a || (b || (c || d))) || e) ≡ true)
      × (ltb (count_one a + count_one b + count_one c + count_one d) 2 ≡ true)
counted_back true true c d e h = absurd (ground arith)
counted_back true false c d e h = (refl, ground arith)
counted_back false true c d e h = (refl, ground arith)
counted_back false false true d e h = (refl, ground arith)
counted_back false false false true e h = (refl, ground arith)
counted_back false false false false e h = (ground arith, refl)

module _ (float : Double) where
  open float use {Num, zero, lt, is_finite}

  -- A record carries one value, or none and a sum; its numbers are finite, its update time is not
  -- negative, and its data decode.
  pub record IsValid (r : SenmlRecord Num) : Type 0 where
    pub content : (value_count r ≡ 1) ⊎ ((value_count r ≡ 0) × (is_some r.s ≡ true))
    pub time_ok : passes is_finite r.t ≡ true
    pub update_ok : passes (is_duration float) r.ut ≡ true
    pub value_ok : passes is_finite r.v ≡ true
    pub sum_ok : passes is_finite r.s ≡ true
    pub data_ok : passes decodes r.vd ≡ true

  -- `validate` accepts a record exactly if it carries one value, or none and a sum, its numbers are
  -- finite, its update time is not negative, and its data decode.
  pub validate-eq-ok_iff : (r : SenmlRecord Num) → (validate float r ≡ ok tt) ↔ IsValid r
  unfolding validate has_value value_count
  validate-eq-ok_iff r = (to, from)
    where
      to : validate float r ≡ ok tt → IsValid r
      to h =
          let (h7, data_ok) = (ensured_iff _ _ _).0 h in
          let (h6, sum_ok) = (ensured_iff _ _ _).0 h7 in
          let (h5, value_ok) = (ensured_iff _ _ _).0 h6 in
          let (h4, update_ok) = (ensured_iff _ _ _).0 h5 in
          let (h3, time_ok) = (ensured_iff _ _ _).0 h4 in
          let (h2, single) = (ensured_iff _ _ _).0 h3 in
          let full = (ensure-eq-ok_iff _ _).0 h2 in
          record {
            content =
                counted (is_some r.v) (is_some r.vs) (is_some r.vb) (is_some r.vd) (is_some r.s)
                  (full, single);
            time_ok = time_ok;
            update_ok = update_ok;
            value_ok = value_ok;
            sum_ok = sum_ok;
            data_ok = data_ok;
          }

      from : IsValid r → validate float r ≡ ok tt
      from v =
          let (full, single) =
            counted_back (is_some r.v) (is_some r.vs) (is_some r.vb) (is_some r.vd) (is_some r.s)
              v.content in
          rw (full, single, v.time_ok, v.update_ok, v.value_ok, v.sum_ok, v.data_ok) refl

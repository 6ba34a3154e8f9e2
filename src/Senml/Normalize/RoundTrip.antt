-- ===== src/Senml/Normalize/RoundTrip.antt =====
-- A pack in normal form, turned into a pack and normalized again.
use mathlib.Core.Path.{subst}
use coapum.Prelude.{
  Result-cases, ◌≡◌, refl, ap, ◌∙◌, true, false, Bool-cases, Option, none, some, Option-cases, inl,
  inr, List, [], ◌∷◌, String, Bytes, map, All, Result, ok, err,
}
use coapum.Senml.{Double, SenmlError}
use coapum.Senml.Base64.{base64_decode}
use coapum.Senml.Base64.RoundTrip.{IsByte, base64_decode-encode, base64_decode-IsByte}
use coapum.Senml.Record.{SenmlRecord}
use coapum.Senml.Pack.{SenmlPack}
use coapum.Senml.Normalize.{
  NormalizedRecord, NormalizedPack, has_value_or_sum, encoded, decoded, to_record, to_pack, is_set,
  offset, resolve_time, or_else, resolved, resolve_name, normalize_record, keep, normalize_each,
  from_records, from_pack,
}

-- The binary value of a record, if it has one, consists of bytes.
abbrev pub DataIsBytes : Option Bytes → Type 0
DataIsBytes none = Unit
DataIsBytes (some d) = All IsByte d

-- A record with a value or a sum, as `from_pack` keeps them.
abbrev pub HasContent : {F : Type 0} → NormalizedRecord F → Type 0
HasContent r = (has_value_or_sum r ≡ true) × DataIsBytes r.data_value

decoded-encoded : (o : Option Bytes) → DataIsBytes o → decoded (encoded o) ≡ o
decoded-encoded none h = refl
decoded-encoded (some d) h = base64_decode-encode d h

decoded-DataIsBytes : (o : Option String) → DataIsBytes (decoded o)
decoded-DataIsBytes none = tt
decoded-DataIsBytes (some vd) = elim (Option-cases (base64_decode vd)) [
  | inl e ↦ rw e tt
  | inr (d, e) ↦ rw e (base64_decode-IsByte vd d e)
]

pub or_else-none : {A : Type 0} (o : Option A) → or_else o none ≡ o
or_else-none none = refl
or_else-none (some a) = refl

module _ (float : Double) where
  open float use {Num, zero, eq_zero}

  zero-is_set : is_set float zero ≡ false
  zero-is_set = rw eq_zero refl

  pub offset-zero : (o : Option Num) → offset float zero o ≡ o
  offset-zero none = refl
  offset-zero (some x) = rw zero-is_set refl

  resolve_time-zero : (o : Option Num) → resolve_time float zero o ≡ o
  resolve_time-zero none = rw zero-is_set refl
  resolve_time-zero (some x) = rw zero-is_set refl

  resolved-to_record :
      (r : NormalizedRecord Num)
      → DataIsBytes r.data_value
      → resolved float (to_record r) zero none zero zero r.name ≡ r
  resolved-to_record r h =
      rw
        (
          offset-zero r.value,
          offset-zero r.sum,
          resolve_time-zero r.time,
          or_else-none r.unit,
          decoded-encoded r.data_value h,
        )
        refl

  keep-full :
      (r : NormalizedRecord Num) (rest : List (NormalizedRecord Num))
      → has_value_or_sum r ≡ true
      → keep float (ok r) rest ≡ r ∷ rest
  unfolding keep
  keep-full r rest full = rw full refl

  normalize_each-to_record :
      (rs : List (NormalizedRecord Num))
      → All HasContent rs
      → normalize_each float [] zero none zero zero (map to_record rs) ≡ rs
  unfolding normalize_each
  normalize_each-to_record [] h = refl
  normalize_each-to_record (r ∷ rs) ((full, data_ok), h) =
      ap (λ x. keep float (ok x) (normalize_each float [] zero none zero zero (map to_record rs)))
        (resolved-to_record r data_ok)
      ∙ keep-full r _ full
      ∙ ap (λ x. r ∷ x) (normalize_each-to_record rs h)

  normalize_record-DataIsBytes :
      (r : SenmlRecord Num) (base_name : String) (base_time : Num) (base_unit : Option String)
      (base_value base_sum : Num) (x : NormalizedRecord Num)
      → normalize_record float r base_name base_time base_unit base_value base_sum ≡ ok x
      → DataIsBytes x.data_value
  unfolding normalize_record
  normalize_record-DataIsBytes r base_name base_time base_unit base_value base_sum x h =
      elim (Result-cases (resolve_name r.n base_name)) [
        | inl (e, f) ↦ let h' = rw (normalize_record, f) at h in cc
        | inr (name, f) ↦
            let h' = rw (normalize_record, f) at h in
            let same : resolved float r base_time base_unit base_value base_sum name ≡ x = cc in
            subst (λ y. DataIsBytes y.data_value) same (decoded-DataIsBytes r.vd)
      ]

  -- A pack in normal form, each of whose records has a value or a sum and whose data are bytes, is
  -- found again by normalizing the pack that it is turned into; only the version is lost.
  pub from_pack-to_pack :
      (p : NormalizedPack Num)
      → All HasContent p.records
      → from_pack float (to_pack p) ≡ record { records = p.records; version = none }
  unfolding from_pack to_pack
  from_pack-to_pack p h = found (p.records) h
    where
      found :
          (rs : List (NormalizedRecord Num))
          → All HasContent rs
          → from_records float (map to_record rs) ≡ record { records = rs; version = none }
      found [] h = refl
      found (r ∷ rs) h =
          ap (λ x. record { records = x; version = none }) (normalize_each-to_record (r ∷ rs) h)

  keep-HasContent :
      (r : Result SenmlError (NormalizedRecord Num)) (rest : List (NormalizedRecord Num))
      → ((x : NormalizedRecord Num) → r ≡ ok x → DataIsBytes x.data_value)
      → All HasContent rest
      → All HasContent (keep float r rest)
  unfolding keep
  keep-HasContent (err e) rest k h = h
  keep-HasContent (ok r) rest k h = elim (Bool-cases (has_value_or_sum r)) [
    | inl e ↦ rw e ((e, k r refl), h)
    | inr e ↦ rw e h
  ]

  normalize_each-HasContent :
      (base_name : String) (base_time : Num) (base_unit : Option String) (base_value base_sum : Num)
      (rs : List (SenmlRecord Num))
      → All HasContent (normalize_each float base_name base_time base_unit base_value base_sum rs)
  unfolding normalize_each
  normalize_each-HasContent base_name base_time base_unit base_value base_sum [] = tt
  normalize_each-HasContent base_name base_time base_unit base_value base_sum (r ∷ rs) =
      keep-HasContent _ _
        (normalize_record-DataIsBytes r base_name base_time base_unit base_value base_sum)
        (normalize_each-HasContent base_name base_time base_unit base_value base_sum rs)

  from_pack-HasContent : (p : SenmlPack Num) → All HasContent (from_pack float p).records
  unfolding from_pack
  from_pack-HasContent p = each p.records
    where
      each : (rs : List (SenmlRecord Num)) → All HasContent (from_records float rs).records
      each [] = tt
      each (r ∷ rs) = normalize_each-HasContent _ _ _ _ _ (r ∷ rs)

  -- Normalizing is idempotent but for the version: a pack is normalized to the same records as the
  -- pack that its normal form is turned into, whatever base values and undecodable data it has.
  pub normalize_idempotent :
      (p : SenmlPack Num)
      → from_pack float (to_pack (from_pack float p))
        ≡ record { records = (from_pack float p).records; version = none }
  normalize_idempotent p = from_pack-to_pack (from_pack float p) (from_pack-HasContent p)

-- ===== src/Senml/Builder/Laws.antt =====
-- What packs of the builders normalize to, and whether they are valid.
use mathlib.Core.Path.{ap₂}
use mathlib.Core.List.{append-nil, append_assoc}
use coapum.Prelude.{
  ◌≡◌, refl, sym, ap, ◌∙◌, true, Option, none, some, List, [], ◌∷◌, ◌++◌, String, map, is_empty,
  Bool-cases, inl, inr, unwrap_or, err, if◌then◌else◌,
}
use coapum.Senml.{Double, validation_error}
use coapum.Senml.Record
use coapum.Senml.Record.{SenmlRecord, with_value, with_time}
use coapum.Senml.Pack
use coapum.Senml.Pack.{SenmlPack}
use coapum.Senml.Normalize.{
  NormalizedRecord, has_value, offset, resolve_time, keep, normalize_each, from_pack,
}
use coapum.Senml.Normalize.RoundTrip.{offset-zero}
use coapum.Senml.Builder
use coapum.Senml.Builder.{
  SenmlBuilder, has_base_values, base_record, build, add_measurement, TimeSeriesBuilder,
  build_series, add_each, with_base_unit,
}

module _ (float : Double) where
  open float use {Num, zero, eq, add}

  -- A pack that is built with base values is not valid: its first record carries them alone, and
  -- `validate` wants a value or a sum in every record.
  pub build-invalid :
      (b : SenmlBuilder Num)
      → has_base_values b ≡ true
      → Pack.validate float (build b) ≡ err validation_error
  unfolding build Pack.validate Record.validate
  build-invalid b e = rw e refl

  keep-base_record :
      (b : SenmlBuilder Num) (base_name : String) (base_time : Num) (base_unit : Option String)
      (base_value base_sum : Num) (rs : List (SenmlRecord Num))
      → normalize_each float base_name base_time base_unit base_value base_sum (base_record b ∷ rs)
        ≡ normalize_each float base_name base_time base_unit base_value base_sum rs
  unfolding normalize_each keep has_value
  keep-base_record b [] base_time base_unit base_value base_sum rs = refl
  keep-base_record b (c ∷ base_name) base_time base_unit base_value base_sum rs = refl

  -- A pack that is built with base values normalizes to the builder's records, each with the base
  -- values resolved; the record that carries the base values leaves no trace.
  pub from_pack-build :
      (b : SenmlBuilder Num)
      → has_base_values b ≡ true
      → (from_pack float (build b)).records
        ≡ normalize_each float
            (unwrap_or b.base_name [])
            (unwrap_or b.base_time zero)
            b.base_unit
            (unwrap_or b.base_value zero)
            (unwrap_or b.base_sum zero)
            b.records
  unfolding build from_pack
  from_pack-build b e = rw e (keep-base_record b _ _ _ _ _ b.records)

  -- The record of one measurement of a series: its time is the sum of its relative time and the base
  -- time, and where the base time is zero the relative time as it is.
  abbrev pub measured : TimeSeriesBuilder Num → Num × Num → NormalizedRecord Num
  measured t (time, x) = record {
    name = t.base_name;
    unit = t.base_unit;
    value = some x;
    string_value = none;
    bool_value = none;
    data_value = none;
    sum = none;
    time = some (if eq t.base_time zero then time else add t.base_time time);
    update_time = none;
  }

  abbrev added : List (Num × Num) → List (SenmlRecord Num)
  added [] = []
  added ((time, x) ∷ ms) = with_time time (with_value [] x) ∷ added ms

  add_each_lem :
      (ms : List (Num × Num)) (b : SenmlBuilder Num)
      → add_each ms b ≡ record b { records = b.records ++ added ms }
  unfolding add_each
  add_each_lem [] b = ap (λ rs. record b { records = rs }) (sym (append-nil b.records))
  add_each_lem ((time, x) ∷ ms) b =
      add_each_lem ms (add_measurement [] x time b)
      ∙ ap (λ rs. record b { records = rs }) (append_assoc b.records _ (added ms))

  -- A measurement without a name of its own has the base name.
  unnamed : (base : String) → (if is_empty base then [] else base ++ []) ≡ base
  unnamed [] = refl
  unnamed (c ∷ s) = append-nil (c ∷ s)

  resolve_time_lem :
      (base time : Num)
      → resolve_time float base (some time) ≡ some (if eq base zero then time else add base time)
  resolve_time_lem base time = elim (Bool-cases (eq base zero)) [
    | inl e ↦ rw e refl
    | inr e ↦ rw e refl
  ]

  normalize_each-added :
      (t : TimeSeriesBuilder Num) (ms : List (Num × Num))
      → normalize_each float t.base_name t.base_time t.base_unit zero zero (added ms)
        ≡ map (measured t) ms
  unfolding normalize_each keep has_value
  normalize_each-added t [] = refl
  normalize_each-added t ((time, x) ∷ ms) =
      ap₂ ◌∷◌
        (ap
            (λ resolved. record (measured t (time, x)) {
              name = if is_empty t.base_name then [] else t.base_name ++ [];
              value = offset float zero (some x);
              time = resolved;
            })
            (resolve_time_lem t.base_time time)
          ∙ ap₂ (λ name value. record (measured t (time, x)) { name = name; value = value })
              (unnamed t.base_name) (offset-zero float (some x)))
        (normalize_each-added t ms)

  -- The builder of a series before its measurements.
  abbrev started : TimeSeriesBuilder Num → Option String → SenmlBuilder Num
  started t unit = record Builder.new {
    base_name = some t.base_name;
    base_time = some t.base_time;
    base_unit = unit;
  }

  with_base_unit_lem :
      (t : TimeSeriesBuilder Num) (unit : Option String)
      → with_base_unit unit (started t none) ≡ started t unit
  with_base_unit_lem t none = refl
  with_base_unit_lem t (some u) = refl

  -- A time series normalizes to its measurements, in their order, each under the name and the unit
  -- of the series and at the sum of its relative time and the base time, or at the relative time as
  -- it is where the base time is zero.
  pub from_pack-build_series :
      (t : TimeSeriesBuilder Num)
      → (from_pack float (build_series t)).records ≡ map (measured t) t.measurements
  unfolding build_series
  from_pack-build_series t =
      let filled : SenmlBuilder Num = record (started t t.base_unit) {
        records = added t.measurements;
      } in
      ap {A = SenmlBuilder Num} (λ b. (from_pack float (build b)).records)
        (add_each_lem t.measurements (with_base_unit t.base_unit (started t none))
          ∙ ap {A = SenmlBuilder Num}
              (λ b. record b { records = b.records ++ added t.measurements })
              (with_base_unit_lem t t.base_unit))
      ∙ from_pack-build filled refl
      ∙ normalize_each-added t t.measurements

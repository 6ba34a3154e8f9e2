-- ===== src/Senml/Validation/Laws.antt =====
-- Which packs a validator accepts.
pub mod Checks
pub mod Names
use coapum.Prelude.{
  ℕ, ℤ, int_beq, ◌≡◌, ◌↔◌, refl, ap, Bool, true, false, not, Option, none, some, List, [], ◌∷◌,
  String, All, is_empty, unwrap_or, Result, ok, err, ◌>>◌, ensure, for_each, is_ok, if◌then◌else◌,
  ◌==◌, string_eq,
}
use coapum.HashMap
use coapum.Str.{ends_with}
use coapum.Senml.{Double, SenmlError, validation_error}
use coapum.Senml.Record
use coapum.Senml.Record.{SenmlRecord, passes}
use coapum.Senml.Record.Laws.{
  >>-eq-ok_iff, ensure-eq-ok_iff, IsValid, validate-eq-ok_iff as record_valid_iff,
}
use coapum.Senml.Pack
use coapum.Senml.Pack.{SenmlPack, as_validation, base_values}
use coapum.Senml.Pack.Laws.{
  for_each-eq-ok_iff, All-map, as_validation-eq-ok_iff, IsValidPack,
  validate-eq-ok_iff as pack_valid_iff,
}
use coapum.Senml.Validation.{
  PackValidator, time_threshold, default_senml_version, validate_name, validate_field_names,
  validate_unit, for_some, when, unit_matches, validate_record, is_ieee, validate_time_value,
  validate_ieee_compliance, validate_rfc_compliance, validate_time_ordering,
  validate_pack_consistency, validate_pack,
}
use coapum.Senml.Validation.Laws.Names.{IsName, validate_name-eq-ok_iff}
use coapum.Senml.Validation.Laws.Checks.{
  when-eq-ok_iff, for_some-eq-ok_iff, for_some-ensure_iff, not-true_iff, Distinct, entries,
  check_entries-nil_iff, times, IsOrdered, check_ordering-none_iff,
}

module _ (float : Double) where
  open float use {Num, zero, lt, le, of_int, is_finite}

  -- What a validator asks of one record beyond its being valid.
  pub record IsAcceptedRecord (w : PackValidator Num) (r : SenmlRecord Num) : Type 0 where
    pub valid : IsValid float r
    pub name_ok : w.strict_names ≡ true → (name : String) → r.n ≡ some name → IsName name
    pub unit_ok :
        (name required : String)
        → r.n ≡ some name
        → HashMap.get name w.required_units ≡ some required
        → r.u ≡ some required

  for_some-validate_name_iff :
      (o : Option String)
      → (for_some validate_name o ≡ ok tt) ↔ ((name : String) → o ≡ some name → IsName name)
  for_some-validate_name_iff o = (
    λ h name e. (validate_name-eq-ok_iff name).0 ((for_some-eq-ok_iff validate_name o).0 h name e),
    λ h.
        (for_some-eq-ok_iff validate_name o).1
          (λ name e. (validate_name-eq-ok_iff name).1 (h name e)),
  )

  unit_matches_iff :
      (required : String) (u : Option String)
      → (unit_matches required u ≡ true) ↔ (u ≡ some required)
  unit_matches_iff required none = (λ h. cc, λ h. cc)
  unit_matches_iff required (some unit) = (
    λ h. ap some ((string_eq.eq_exact unit required).0 h),
    λ h. (string_eq.eq_exact unit required).1 cc,
  )

  -- A validator accepts a record exactly if it is valid, its name has 1 to 256 bytes and neither
  -- spaces nor control characters where strict names are asked for, and its unit is the one that its name requires, if any.
  pub validate_record-eq-ok_iff :
      (w : PackValidator Num) (r : SenmlRecord Num)
      → (validate_record float w r ≡ ok tt) ↔ IsAcceptedRecord w r
  unfolding validate_record
  validate_record-eq-ok_iff w r = (
    λ h.
        let (h2, units) = (>>-eq-ok_iff _ _).0 h in
        let (basic, names) = (>>-eq-ok_iff _ _).0 h2 in
        record {
          valid = (record_valid_iff float r).0 basic;
          name_ok =
              λ strict. (for_some-validate_name_iff r.n).0 ((when-eq-ok_iff _ _).0 names strict);
          unit_ok = λ name required e k. (unit_matches_iff required r.u).0 (
              (ensure-eq-ok_iff _ _).0 (
                (for_some-eq-ok_iff _ _).0 ((for_some-eq-ok_iff _ r.n).0 units name e) required k));
        },
    λ a. (>>-eq-ok_iff _ _).1 (
      (>>-eq-ok_iff _ _).1 (
        (record_valid_iff float r).1 a.valid,
        (when-eq-ok_iff _ _).1 (λ strict. (for_some-validate_name_iff r.n).1 (a.name_ok strict)),
      ),
      (for_some-eq-ok_iff _ r.n).1 (λ name e. (for_some-eq-ok_iff _ _).1 (λ required k.
          (ensure-eq-ok_iff _ _).1
            ((unit_matches_iff required r.u).1 (a.unit_ok name required e k)))),
    ),
  )

  -- Times from 2 ^ 28 on are not negative.
  abbrev pub PositiveAbsolute : Type 0
  PositiveAbsolute = (x : Num) → le (of_int time_threshold) x ≡ true → lt x zero ≡ false

  time_value_ok :
      PositiveAbsolute
      → (o : Option Num) → passes is_finite o ≡ true
      → for_some (validate_time_value float) o ≡ ok tt
  unfolding validate_time_value
  time_value_ok positive none e = refl
  time_value_ok positive (some x) e = (>>-eq-ok_iff _ _).1 (
    (ensure-eq-ok_iff _ _).1 e,
    (when-eq-ok_iff _ _).1
        (λ above. (ensure-eq-ok_iff _ _).1 ((not-true_iff _).1 (positive x above))),
  )

  passes-is_ieee : (o : Option Num) → passes is_finite o ≡ true → passes (is_ieee float) o ≡ true
  passes-is_ieee none e = refl
  passes-is_ieee (some x) e = rw e refl

  -- The numbers of a valid record comply with IEEE 754.
  ieee_ok : (r : SenmlRecord Num) → IsValid float r → validate_ieee_compliance float r ≡ ok tt
  unfolding validate_ieee_compliance
  ieee_ok r v =
      rw (passes-is_ieee r.v v.value_ok, passes-is_ieee r.s v.sum_ok, v.time_ok, v.update_ok) refl

  field_name_iff :
      (o : Option String)
      → (for_some validate_field_names o ≡ ok tt)
        ↔ (passes (λ name. not (ends_with b'_' name)) o ≡ true)
  unfolding validate_field_names
  field_name_iff o = for_some-ensure_iff (λ name. not (ends_with b'_' name)) o

  -- What the strict mode asks of a valid pack: the version, and names that are not reserved.
  pub record IsCompliant (p : SenmlPack Num) : Type 0 where
    pub version :
        int_beq (unwrap_or (base_values p).bver default_senml_version) default_senml_version ≡ true
    pub names_ok : All (λ r. passes (λ name. not (ends_with b'_' name)) r.n ≡ true) p.records

  -- Of a valid pack the strict mode checks the version and the names: the tests on the times and on
  -- the numbers cannot fail.
  pub validate_rfc_compliance-eq-ok_iff :
      (p : SenmlPack Num)
      → PositiveAbsolute
      → IsValidPack float p
      → (validate_rfc_compliance float p ≡ ok tt) ↔ IsCompliant p
  unfolding validate_rfc_compliance
  validate_rfc_compliance-eq-ok_iff p positive v = rw v.nonempty (
    λ h.
        let (h3, ieee) = (>>-eq-ok_iff _ _).0 h in
        let (h2, names) = (>>-eq-ok_iff _ _).0 h3 in
        let (version, times) = (>>-eq-ok_iff _ _).0 h2 in
        record {
          version = (ensure-eq-ok_iff _ _).0 version;
          names_ok =
              All-map (λ r. (field_name_iff r.n).0) p.records ((for_each-eq-ok_iff _ _).0 names);
        },
    λ c. (>>-eq-ok_iff _ _).1 (
      (>>-eq-ok_iff _ _).1 (
        (>>-eq-ok_iff _ _).1 (
          (ensure-eq-ok_iff _ _).1 c.version,
          (for_each-eq-ok_iff _ _).1
              (All-map (λ r k. time_value_ok positive r.t k.time_ok) p.records v.records_ok),
        ),
        (for_each-eq-ok_iff _ _).1 (All-map (λ r. (field_name_iff r.n).1) p.records c.names_ok),
      ),
      (for_each-eq-ok_iff _ _).1 (All-map ieee_ok p.records v.records_ok),
    ),
  )

  -- What a validator asks of a pack that has a record.
  pub record IsAccepted (w : PackValidator Num) (p : SenmlPack Num) : Type 0 where
    pub valid : IsValidPack float p
    pub compliant : w.rfc_strict ≡ true → IsCompliant p
    pub records_ok : All (IsAcceptedRecord w) p.records
    pub distinct : Distinct (entries float p.records)
    pub ordered :
        (drift : Num)
        → w.max_time_drift ≡ some drift
        → IsOrdered float drift (times float p.records)

  consistency_iff :
      (w : PackValidator Num) (p : SenmlPack Num)
      → is_empty p.records ≡ false
      → (validate_pack_consistency float w p ≡ ok tt) ↔ (
          Distinct (entries float p.records)
          × ((drift : Num)
              → w.max_time_drift ≡ some drift
              → IsOrdered float drift (times float p.records)))
  unfolding validate_pack_consistency validate_time_ordering
  consistency_iff w p e = rw e (
    λ h.
        let (distinct, ordered) = (>>-eq-ok_iff _ _).0 h in
        (
          (check_entries-nil_iff float p.records).0 distinct,
          λ drift k.
              (check_ordering-none_iff float drift p.records).0
                ((for_some-eq-ok_iff _ w.max_time_drift).0 ordered drift k),
        ),
    λ (distinct, ordered). (>>-eq-ok_iff _ _).1 (
      (check_entries-nil_iff float p.records).1 distinct,
      (for_some-eq-ok_iff _ w.max_time_drift).1
          (λ drift k. (check_ordering-none_iff float drift p.records).1 (ordered drift k)),
    ),
  )

  nonempty_steps :
      (w : PackValidator Num) (p : SenmlPack Num)
      → is_empty p.records ≡ false
      → validate_pack float w p ≡ (
          Pack.validate float p
          >> when w.rfc_strict (validate_rfc_compliance float p)
          >> for_each (λ r. as_validation (validate_record float w r)) p.records
          >> validate_pack_consistency float w p)
  unfolding validate_pack
  nonempty_steps w p e = rw e refl

  -- A validator accepts a pack that has a record exactly if the pack is valid, has the version 10
  -- and no reserved name where the strict mode is on, has records that the validator accepts, no two
  -- of one name in one second, and, where a drift is set, no time that is behind the one before it by
  -- more; if times from 2 ^ 28 on are not negative.
  pub validate_pack-eq-ok_iff :
      (w : PackValidator Num) (p : SenmlPack Num)
      → PositiveAbsolute
      → is_empty p.records ≡ false
      → (validate_pack float w p ≡ ok tt) ↔ IsAccepted w p
  validate_pack-eq-ok_iff w p positive e = rw (nonempty_steps w p e) (
    λ h.
        let (h3, consistent) = (>>-eq-ok_iff _ _).0 h in
        let (h2, each) = (>>-eq-ok_iff _ _).0 h3 in
        let (basic, strict) = (>>-eq-ok_iff _ _).0 h2 in
        let valid = (pack_valid_iff float p).0 basic in
        let (distinct, ordered) = (consistency_iff w p e).0 consistent in
        record {
          valid = valid;
          compliant = λ k.
              (validate_rfc_compliance-eq-ok_iff p positive valid).0
                ((when-eq-ok_iff _ _).0 strict k);
          records_ok =
              All-map (λ r k. (validate_record-eq-ok_iff w r).0 ((as_validation-eq-ok_iff _).0 k))
                p.records ((for_each-eq-ok_iff _ _).0 each);
          distinct = distinct;
          ordered = ordered;
        },
    λ a. (>>-eq-ok_iff _ _).1 (
      (>>-eq-ok_iff _ _).1 (
        (>>-eq-ok_iff _ _).1 (
          (pack_valid_iff float p).1 a.valid,
          (when-eq-ok_iff _ _).1
              (λ k. (validate_rfc_compliance-eq-ok_iff p positive a.valid).1 (a.compliant k)),
        ),
        (for_each-eq-ok_iff _ _).1 (
            All-map (λ r k. (as_validation-eq-ok_iff _).1 ((validate_record-eq-ok_iff w r).1 k))
              p.records a.records_ok),
      ),
      (consistency_iff w p e).1 (a.distinct, a.ordered),
    ),
  )

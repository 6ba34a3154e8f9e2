-- ===== src/Senml/Validation.antt =====
-- The validators of coapum-senml/src/validation.rs.
pub mod Laws
pub mod Units
use coapum.Prelude.{
  ℕ, ℤ, pos, int_beq, Bool, true, false, not, ◌&&◌, ◌||◌, Option, none, some, List, [], ◌∷◌, String,
  codes, is_empty, any, all, unwrap_or, leb, Result, ok, err, ◌>>◌, ensure, for_each, is_ok,
  if◌then◌else◌, ◌==◌, string_eq, nat_beq,
}
use coapum.HashMap
use coapum.HashMap.{HashMap}
use coapum.Str.{is_ascii_alphanumeric, is_control, ends_with, utf8_length}
use coapum.Senml.{Double, SenmlError, validation_error}
use coapum.Senml.Record
use coapum.Senml.Record.{SenmlRecord, passes, is_duration}
use coapum.Senml.Pack
use coapum.Senml.Pack.{SenmlPack, base_values, as_validation}

abbrev pub time_threshold : ℤ
time_threshold = pos 268435456

abbrev pub default_senml_version : ℤ
default_senml_version = pos 10

pub record PackValidator (F : Type 0) : Type 0 where
  pub allow_empty : Bool
  pub strict_names : Bool
  pub max_time_drift : Option F
  pub required_units : HashMap String String
  pub rfc_strict : Bool

module _ {F : Type 0} where
  abbrev pub new : PackValidator F
  new = record {
    allow_empty = false;
    strict_names = true;
    max_time_drift = none;
    required_units = [];
    rfc_strict = true;
  }

  abbrev pub allow_empty : PackValidator F → PackValidator F
  allow_empty w = record w { allow_empty = true }

  abbrev pub strict_names : Bool → PackValidator F → PackValidator F
  strict_names strict w = record w { strict_names = strict }

  abbrev pub max_time_drift : F → PackValidator F → PackValidator F
  max_time_drift drift w = record w { max_time_drift = some drift }

  abbrev pub require_unit : String → String → PackValidator F → PackValidator F
  require_unit measurement unit w = record w {
    required_units = HashMap.insert measurement unit w.required_units;
  }

  abbrev pub rfc_strict : Bool → PackValidator F → PackValidator F
  rfc_strict strict w = record w { rfc_strict = strict }

-- `contains` with a character as the pattern.
abbrev pub has_char : ℕ → String → Bool
has_char c s = any (nat_beq c) s

unfoldable pub validate_name : String → Result SenmlError (Unit {0})
unfolding utf8_length
validate_name name =
    ensure (not (is_empty name)) validation_error
    >> ensure (not (has_char b' ' name || (has_char 9 name || has_char 10 name))) validation_error
    >> ensure (not (any is_control name)) validation_error
    >> ensure (leb (utf8_length name) 256) validation_error

unfoldable pub validate_field_names : String → Result SenmlError (Unit {0})
unfolding ends_with
validate_field_names name = ensure (not (ends_with b'_' name)) validation_error

-- What is asked of a field that may be missing.
abbrev pub for_some :
    {A : Type 0} → (A → Result SenmlError (Unit {0})) → Option A → Result SenmlError (Unit {0})
for_some f none = ok tt
for_some f (some a) = f a

-- A step that is taken where a flag is set.
abbrev pub when : Bool → Result SenmlError (Unit {0}) → Result SenmlError (Unit {0})
when true m = m
when false m = ok tt

-- A record's unit against the unit that its name requires.
abbrev pub unit_matches : String → Option String → Bool
unit_matches required none = false
unit_matches required (some unit) = unit == required

abbrev pub validate_unit :
    HashMap String String → Option String → String → Result SenmlError (Unit {0})
validate_unit units u name =
    for_some (λ required. ensure (unit_matches required u) validation_error)
      (HashMap.get name units)

abbrev pub entry_eq : String × ℤ → String × ℤ → Bool
entry_eq (n, t) (m, u) = (n == m) && int_beq t u

-- The functions of `utils`.
unfoldable pub is_valid_name : String → Bool
unfolding validate_name
is_valid_name name = is_ok (validate_name name)

abbrev is_unit_char : ℕ → Bool
is_unit_char c = is_ascii_alphanumeric c || (nat_beq c b'/' || nat_beq c b'%')

unfoldable pub is_valid_unit : String → Bool
is_valid_unit unit = not (is_empty unit) && (not (has_char b' ' unit) && all is_unit_char unit)

unfoldable pub is_valid_field_name : String → Bool
unfolding ends_with
is_valid_field_name name = not (ends_with b'_' name) && not (is_empty name)

-- The patterns and the suggestions of `suggest_unit_correction`, where 0xb0 is the degree sign.
abbrev pub unit_corrections : List (List String × String)
unit_corrections =
    ((codes "celsius" ∷ (0xb0 ∷ codes "c") ∷ codes "degc" ∷ []), codes "Cel")
    ∷ ((codes "fahrenheit" ∷ (0xb0 ∷ codes "f") ∷ codes "degf" ∷ []), codes "degF")
    ∷ ((codes "percent" ∷ codes "percentage" ∷ []), codes "%")
    ∷ ((codes "watts" ∷ codes "watt" ∷ []), codes "W")
    ∷ ((codes "volts" ∷ codes "volt" ∷ []), codes "V")
    ∷ ((codes "amps" ∷ codes "ampere" ∷ codes "amperes" ∷ []), codes "A")
    ∷ ((codes "pascal" ∷ codes "pascals" ∷ []), codes "Pa")
    ∷ ((codes "seconds" ∷ codes "second" ∷ codes "sec" ∷ []), codes "s")
    ∷ ((codes "meters" ∷ codes "meter" ∷ codes "metre" ∷ []), codes "m")
    ∷ []

-- The first arm whose patterns hold the text.
unfoldable pub find_correction : String → List (List String × String) → Option String
find_correction unit [] = none
find_correction unit ((patterns, correction) ∷ arms) =
    if any (λ pat. unit == pat) patterns then some correction else find_correction unit arms

-- The conversion to lower case is the library's.
unfoldable pub suggest_unit_correction : (String → String) → String → Option String
unfolding find_correction
suggest_unit_correction to_lowercase unit = find_correction (to_lowercase unit) unit_corrections

module _ (float : Double) where
  open float use {Num, zero, sub, lt, le, is_finite, is_nan, as_i64, of_int}

  -- The basic rules, strict names, and the required unit.
  unfoldable pub validate_record :
      PackValidator Num → SenmlRecord Num → Result SenmlError (Unit {0})
  unfolding validate_name
  validate_record w r =
      Record.validate float r
      >> when w.strict_names (for_some validate_name r.n)
      >> for_some (validate_unit w.required_units r.u) r.n

  -- An entry of `seen_entries`: the name and the time in whole seconds.
  abbrev pub entry_of : String → Option Num → String × ℤ
  entry_of name t = (name, as_i64 (unwrap_or t zero))

  -- The loop that looks for duplicates.
  unfoldable pub check_entries :
      List (String × ℤ) → List (SenmlRecord Num) → Result SenmlError (Unit {0})
  check_entries seen [] = ok tt
  check_entries seen (r ∷ rs) = elim (r.n) [
    | none ↦ check_entries seen rs
    | some name ↦
        ensure (not (any (entry_eq (entry_of name r.t)) seen)) validation_error
        >> check_entries (entry_of name r.t ∷ seen) rs
  ]

  -- Whether a time is behind the last one by more than the drift.
  abbrev pub is_behind : Num → Option Num → Num → Bool
  is_behind max_drift none time = false
  is_behind max_drift (some prev) time = lt max_drift (sub prev time)

  -- The loop of `validate_time_ordering`.
  unfoldable pub check_ordering :
      Num → Option Num → List (SenmlRecord Num) → Result SenmlError (Unit {0})
  check_ordering max_drift last [] = ok tt
  check_ordering max_drift last (r ∷ rs) = elim (r.t) [
    | none ↦ check_ordering max_drift last rs
    | some time ↦
        ensure (not (is_behind max_drift last time)) validation_error
        >> check_ordering max_drift (some time) rs
  ]

  unfoldable pub validate_time_ordering : Num → SenmlPack Num → Result SenmlError (Unit {0})
  unfolding check_ordering
  validate_time_ordering max_drift p = check_ordering max_drift none p.records

  unfoldable pub validate_pack_consistency :
      PackValidator Num → SenmlPack Num → Result SenmlError (Unit {0})
  unfolding check_entries validate_time_ordering
  validate_pack_consistency w p =
      if is_empty p.records
      then ok tt
      else (check_entries [] p.records
          >> for_some (λ drift. validate_time_ordering drift p) w.max_time_drift)

  unfoldable pub validate_time_value : Num → Result SenmlError (Unit {0})
  validate_time_value time =
      ensure (is_finite time) validation_error
      >> when (le (of_int time_threshold) time) (ensure (not (lt time zero)) validation_error)

  -- Finite, or not a number.
  abbrev pub is_ieee : Num → Bool
  is_ieee x = is_finite x || is_nan x

  unfoldable pub validate_ieee_compliance : SenmlRecord Num → Result SenmlError (Unit {0})
  validate_ieee_compliance r =
      ensure (passes is_ieee r.v) validation_error
      >> ensure (passes is_ieee r.s) validation_error
      >> ensure (passes is_finite r.t) validation_error
      >> ensure (passes (is_duration float) r.ut) validation_error

  unfoldable pub validate_rfc_compliance : SenmlPack Num → Result SenmlError (Unit {0})
  unfolding base_values validate_time_value validate_field_names validate_ieee_compliance
  validate_rfc_compliance p =
      if is_empty p.records
      then ok tt
      else (ensure
            (int_beq (unwrap_or (base_values p).bver default_senml_version) default_senml_version)
            validation_error
          >> for_each (λ r. for_some validate_time_value r.t) p.records
          >> for_each (λ r. for_some validate_field_names r.n) p.records
          >> for_each validate_ieee_compliance p.records)

  unfoldable pub validate_pack : PackValidator Num → SenmlPack Num → Result SenmlError (Unit {0})
  unfolding validate_rfc_compliance validate_record validate_pack_consistency
  validate_pack w p =
      if is_empty p.records
      then ensure w.allow_empty validation_error
      else (Pack.validate float p
          >> when w.rfc_strict (validate_rfc_compliance p)
          >> for_each (λ r. as_validation (validate_record w r)) p.records
          >> validate_pack_consistency w p)

  -- The presets.
  unfoldable pub iot_sensor : PackValidator Num
  iot_sensor = require_unit (codes "pressure") (codes "Pa") (
      require_unit (codes "humidity") (codes "%RH") (
        require_unit (codes "temperature") (codes "Cel")
          (max_time_drift (of_int (pos 3600)) (strict_names true new))))

  unfoldable pub energy_monitor : PackValidator Num
  energy_monitor = require_unit (codes "current") (codes "A") (
      require_unit (codes "voltage") (codes "V") (
        require_unit (codes "energy") (codes "Wh")
          (require_unit (codes "power") (codes "W") (strict_names true new))))

  unfoldable pub relaxed : PackValidator Num
  relaxed = strict_names false (allow_empty new)

  unfoldable pub production : PackValidator Num
  production = max_time_drift (of_int (pos 300)) (strict_names true new)

  unfoldable pub rfc8428_compliant : PackValidator Num
  rfc8428_compliant = strict_names true (rfc_strict true new)

  unfoldable pub is_relative_time : Num → Bool
  is_relative_time time = lt time (of_int time_threshold)

  unfoldable pub is_absolute_time : Num → Bool
  is_absolute_time time = le (of_int time_threshold) time

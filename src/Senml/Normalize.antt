-- ===== src/Senml/Normalize.antt =====
-- coapum-senml/src/normalize.rs: records with the base values resolved. Of the grouping by prefix
-- the groups are modelled as an association list; the order of its entries means nothing.
pub mod RoundTrip
pub mod Queries
pub mod Complete
pub mod Prefix
use coapum.Prelude.{
  ℕ, ℤ, Bool, true, false, not, ◌&&◌, ◌||◌, Option, none, some, List, [], ◌∷◌, ◌++◌, String, Bytes,
  codes, is_empty, is_some, unwrap_or, filter, map, Result, ok, err, ◌>>◌, ensure, for_each,
  if◌then◌else◌, string_eq,
}
use coapum.HashMap
use coapum.HashMap.{HashMap}
use coapum.Str.{slash, contains, rsplit_once}
use coapum.Senml.{Double, SenmlError, invalid_field_value, validation_error, normalization_error}
use coapum.Senml.Base64.{base64_encode, base64_decode}
use coapum.Senml.Record
use coapum.Senml.Record.{
  SenmlRecord, SenmlValue, number, string, boolean, bytes, passes, is_duration,
}
use coapum.Senml.Pack.{SenmlPack, as_validation}

pub record NormalizedRecord (F : Type 0) : Type 0 where
  pub name : String
  pub unit : Option String
  pub value : Option F
  pub string_value : Option String
  pub bool_value : Option Bool
  pub data_value : Option Bytes
  pub sum : Option F
  pub time : Option F
  pub update_time : Option F

pub record NormalizedPack (F : Type 0) : Type 0 where
  pub records : List (NormalizedRecord F)
  pub version : Option ℤ

abbrev pub encoded : Option Bytes → Option String
encoded none = none
encoded (some d) = some (base64_encode d)

abbrev pub decoded : Option String → Option Bytes
decoded none = none
decoded (some vd) = base64_decode vd

-- The name of a record under a base name.
abbrev pub resolve_name : Option String → String → Result SenmlError String
resolve_name (some n) base_name = ok (if is_empty base_name then n else base_name ++ n)
resolve_name none base_name = if is_empty base_name then err normalization_error else ok base_name

abbrev pub or_else : {A : Type 0} → Option A → Option A → Option A
or_else none o = o
or_else (some a) o = some a

module _ {F : Type 0} where
  unfoldable pub has_value : NormalizedRecord F → Bool
  has_value r =
      is_some r.value || (is_some r.string_value || (is_some r.bool_value || is_some r.data_value))

  abbrev pick : Option F → Option String → Option Bool → Option Bytes → Option (SenmlValue F)
  pick (some x) _ _ _ = some (number x)
  pick none (some x) _ _ = some (string x)
  pick none none (some x) _ = some (boolean x)
  pick none none none (some x) = some (bytes x)
  pick none none none none = none

  unfoldable pub primary_value : NormalizedRecord F → Option (SenmlValue F)
  primary_value r = pick r.value r.string_value r.bool_value r.data_value

  -- What is before the last slash, and that slash; what is after it.
  unfoldable pub base_name : NormalizedRecord F → Option String
  base_name r = elim (rsplit_once slash r.name) [
    | none ↦ none
    | some (before, after) ↦ some (before ++ (slash ∷ []))
  ]

  unfoldable pub local_name : NormalizedRecord F → String
  local_name r = elim (rsplit_once slash r.name) [ none ↦ r.name | some (before, after) ↦ after ]

  abbrev pub has_value_or_sum : NormalizedRecord F → Bool
  has_value_or_sum r = has_value r || is_some r.sum

  abbrev pub to_record : NormalizedRecord F → SenmlRecord F
  to_record r = record Record.new {
    n = some r.name;
    u = r.unit;
    v = r.value;
    vs = r.string_value;
    vb = r.bool_value;
    vd = encoded r.data_value;
    s = r.sum;
    t = r.time;
    ut = r.update_time;
  }

  unfoldable pub to_pack : NormalizedPack F → SenmlPack F
  to_pack p = record { records = map to_record p.records }

  unfoldable pub records_matching : String → NormalizedPack F → List (NormalizedRecord F)
  records_matching pattern' p = filter (λ r. contains pattern' r.name) p.records

  unfoldable pub prefix : NormalizedRecord F → String
  prefix r = elim (rsplit_once slash r.name) [ none ↦ [] | some (before, after) ↦ before ]

  -- The loop of `group_by_prefix`.
  unfoldable pub group_each :
      HashMap String (List (NormalizedRecord F))
      → List (NormalizedRecord F)
      → HashMap String (List (NormalizedRecord F))
  group_each groups [] = groups
  group_each groups (r ∷ rs) =
      group_each
        (HashMap.insert (prefix r) (unwrap_or (HashMap.get (prefix r) groups) [] ++ (r ∷ []))
          groups)
        rs

  unfoldable pub group_by_prefix : NormalizedPack F → HashMap String (List (NormalizedRecord F))
  unfolding group_each prefix
  group_by_prefix p = group_each [] p.records

module _ (float : Double) where
  open float use {Num, zero, add, eq, le, min, max, infinity, neg_infinity, is_finite}

  abbrev pub is_set : Num → Bool
  is_set x = not (eq x zero)

  -- A number that is there, with its base if that is not zero.
  abbrev pub offset : Num → Option Num → Option Num
  offset base none = none
  offset base (some x) = some (if is_set base then add x base else x)

  abbrev pub resolve_time : Num → Option Num → Option Num
  resolve_time base (some x) = some (if is_set base then add base x else x)
  resolve_time base none = if is_set base then some base else none

  abbrev pub resolved :
      SenmlRecord Num → Num → Option String → Num → Num → String → NormalizedRecord Num
  resolved r base_time base_unit base_value base_sum name = record {
    name = name;
    unit = or_else r.u base_unit;
    value = offset base_value r.v;
    string_value = r.vs;
    bool_value = r.vb;
    data_value = decoded r.vd;
    sum = offset base_sum r.s;
    time = resolve_time base_time r.t;
    update_time = r.ut;
  }

  unfoldable pub normalize_record :
      SenmlRecord Num
      → String
      → Num
      → Option String
      → Num
      → Num
      → Result SenmlError (NormalizedRecord Num)
  normalize_record r base_name base_time base_unit base_value base_sum =
      elim (resolve_name r.n base_name) [
        | err e ↦ err e
        | ok name ↦ ok (resolved r base_time base_unit base_value base_sum name)
      ]

  -- A record that has a name, and a value or a sum.
  unfoldable pub keep :
      Result SenmlError (NormalizedRecord Num)
      → List (NormalizedRecord Num)
      → List (NormalizedRecord Num)
  keep (err e) rest = rest
  keep (ok r) rest = if has_value_or_sum r then r ∷ rest else rest

  -- The loop of `from_pack`.
  unfoldable pub normalize_each :
      String
      → Num
      → Option String
      → Num
      → Num
      → List (SenmlRecord Num)
      → List (NormalizedRecord Num)
  unfolding keep normalize_record
  normalize_each base_name base_time base_unit base_value base_sum [] = []
  normalize_each base_name base_time base_unit base_value base_sum (r ∷ rs) =
      keep (normalize_record r base_name base_time base_unit base_value base_sum)
        (normalize_each base_name base_time base_unit base_value base_sum rs)

  unfoldable pub from_records : List (SenmlRecord Num) → NormalizedPack Num
  unfolding normalize_each
  from_records [] = record { records = []; version = none }
  from_records (first ∷ rs) = record {
    records =
        normalize_each (unwrap_or first.bn []) (unwrap_or first.bt zero) first.bu
          (unwrap_or first.bv zero) (unwrap_or first.bs zero) (first ∷ rs);
    version = first.bver;
  }

  unfoldable pub from_pack : SenmlPack Num → NormalizedPack Num
  unfolding from_records
  from_pack p = from_records p.records

  abbrev in_range : Num → Num → Option Num → Bool
  in_range start end none = false
  in_range start end (some time) = le start time && le time end

  unfoldable pub records_in_time_range :
      Num → Num → NormalizedPack Num → List (NormalizedRecord Num)
  records_in_time_range start end p = filter (λ r. in_range start end r.time) p.records

  -- `filter_map(|r| r.time)`
  abbrev pub times : List (NormalizedRecord Num) → List Num
  times [] = []
  times (r ∷ rs) = elim (r.time) [ none ↦ times rs | some t ↦ t ∷ times rs ]

  -- `fold` of the least and of the greatest value.
  abbrev fold : (Num → Num → Num) → Num → List Num → Num
  fold f a [] = a
  fold f a (x ∷ xs) = fold f (f a x) xs

  unfoldable pub time_range : NormalizedPack Num → Option (Num × Num)
  time_range p =
      if is_empty (times p.records)
      then none
      else some (fold min infinity (times p.records), fold max neg_infinity (times p.records))

  unfoldable pub validate_record : NormalizedRecord Num → Result SenmlError (Unit {0})
  validate_record r =
      ensure (not (is_empty r.name)) validation_error
      >> ensure (has_value_or_sum r) validation_error
      >> ensure (passes is_finite r.value) (invalid_field_value (codes "value"))
      >> ensure (passes is_finite r.sum) (invalid_field_value (codes "sum"))
      >> ensure (passes is_finite r.time) (invalid_field_value (codes "time"))
      >> ensure (passes (is_duration float) r.update_time)
          (invalid_field_value (codes "update_time"))

  unfoldable pub validate : NormalizedPack Num → Result SenmlError (Unit {0})
  unfolding validate_record
  validate p = for_each (λ r. as_validation (validate_record r)) p.records

-- ===== src/Senml/Builder.antt =====
-- The builders of coapum-senml/src/builder.rs.
pub mod Laws
use coapum.Prelude.{
  Bool, true, false, ◌||◌, Option, none, some, List, [], ◌∷◌, ◌++◌, String, Bytes, is_some,
  if◌then◌else◌,
}
use coapum.Senml.Record
use coapum.Senml.Record.{
  SenmlRecord, SenmlValue, number, string, boolean, bytes, with_value, with_string_value,
  with_bool_value, with_data_value, with_unit, with_time, with_sum, with_name,
}
use coapum.Senml.Pack.{SenmlPack}

pub record SenmlBuilder (F : Type 0) : Type 0 where
  pub base_name : Option String
  pub base_time : Option F
  pub base_unit : Option String
  pub base_value : Option F
  pub base_sum : Option F
  pub records : List (SenmlRecord F)

module _ {F : Type 0} where
  abbrev pub new : SenmlBuilder F
  new = record {
    base_name = none;
    base_time = none;
    base_unit = none;
    base_value = none;
    base_sum = none;
    records = [];
  }

  abbrev pub set_base_name : String → SenmlBuilder F → SenmlBuilder F
  set_base_name name b = record b { base_name = some name }

  abbrev pub set_base_time : F → SenmlBuilder F → SenmlBuilder F
  set_base_time time b = record b { base_time = some time }

  abbrev pub set_base_unit : String → SenmlBuilder F → SenmlBuilder F
  set_base_unit unit b = record b { base_unit = some unit }

  abbrev pub set_base_value : F → SenmlBuilder F → SenmlBuilder F
  set_base_value value b = record b { base_value = some value }

  abbrev pub set_base_sum : F → SenmlBuilder F → SenmlBuilder F
  set_base_sum sum b = record b { base_sum = some sum }

  abbrev pub add_record : SenmlRecord F → SenmlBuilder F → SenmlBuilder F
  add_record r b = record b { records = b.records ++ (r ∷ []) }

  abbrev pub add_records : List (SenmlRecord F) → SenmlBuilder F → SenmlBuilder F
  add_records rs b = record b { records = b.records ++ rs }

  abbrev pub add_value : String → F → SenmlBuilder F → SenmlBuilder F
  add_value name x b = add_record (with_value name x) b

  abbrev pub add_string_value : String → String → SenmlBuilder F → SenmlBuilder F
  add_string_value name x b = add_record (with_string_value name x) b

  abbrev pub add_bool_value : String → Bool → SenmlBuilder F → SenmlBuilder F
  add_bool_value name x b = add_record (with_bool_value name x) b

  abbrev pub add_data_value : String → Bytes → SenmlBuilder F → SenmlBuilder F
  add_data_value name x b = add_record (with_data_value name x) b

  abbrev pub add_measurement : String → F → F → SenmlBuilder F → SenmlBuilder F
  add_measurement name x time b = add_record (with_time time (with_value name x)) b

  abbrev pub add_measurement_with_unit : String → F → String → F → SenmlBuilder F → SenmlBuilder F
  add_measurement_with_unit name x unit time b =
      add_record (with_time time (with_unit unit (with_value name x))) b

  abbrev pub add_sum : String → F → F → SenmlBuilder F → SenmlBuilder F
  add_sum name sum time b = add_record (with_time time (with_sum sum (with_name name Record.new))) b

  unfoldable pub has_base_values : SenmlBuilder F → Bool
  has_base_values b =
      is_some b.base_name
      || (is_some b.base_time
          || (is_some b.base_unit || (is_some b.base_value || is_some b.base_sum)))

  -- The first record, which carries the base values alone.
  abbrev pub base_record : SenmlBuilder F → SenmlRecord F
  base_record b = record Record.new {
    bn = b.base_name;
    bt = b.base_time;
    bu = b.base_unit;
    bv = b.base_value;
    bs = b.base_sum;
  }

  unfoldable pub build : SenmlBuilder F → SenmlPack F
  unfolding has_base_values
  build b = record { records = if has_base_values b then base_record b ∷ b.records else b.records }

pub record TimeSeriesBuilder (F : Type 0) : Type 0 where
  pub base_name : String
  pub base_time : F
  pub base_unit : Option String
  -- the relative times and the values
  pub measurements : List (F × F)

module _ {F : Type 0} where
  abbrev pub new_series : String → F → TimeSeriesBuilder F
  new_series base_name base_time = record {
    base_name = base_name;
    base_time = base_time;
    base_unit = none;
    measurements = [];
  }

  abbrev pub unit : String → TimeSeriesBuilder F → TimeSeriesBuilder F
  unit name b = record b { base_unit = some name }

  abbrev pub measurement : F → F → TimeSeriesBuilder F → TimeSeriesBuilder F
  measurement relative_time x b = record b {
    measurements = b.measurements ++ ((relative_time, x) ∷ []);
  }

  abbrev pub measurements : List (F × F) → TimeSeriesBuilder F → TimeSeriesBuilder F
  measurements ms b = record b { measurements = b.measurements ++ ms }

  -- `measurement_now`, where `now` is the clock and `sub` the subtraction.
  abbrev pub measurement_now : (F → F → F) → F → F → TimeSeriesBuilder F → TimeSeriesBuilder F
  measurement_now sub now x b = measurement (sub now b.base_time) x b

  unfoldable pub add_each : List (F × F) → SenmlBuilder F → SenmlBuilder F
  add_each [] b = b
  add_each ((time, x) ∷ rest) b = add_each rest (add_measurement [] x time b)

  abbrev pub with_base_unit : Option String → SenmlBuilder F → SenmlBuilder F
  with_base_unit none b = b
  with_base_unit (some u) b = set_base_unit u b

  unfoldable pub build_series : TimeSeriesBuilder F → SenmlPack F
  unfolding add_each build
  build_series t = build (
      add_each t.measurements
        (with_base_unit t.base_unit (set_base_time t.base_time (set_base_name t.base_name new))))

pub record ConfigBuilder (F : Type 0) : Type 0 where
  pub device_name : Option String
  pub parameters : List (String × SenmlValue F)

module _ {F : Type 0} where
  abbrev pub new_config : ConfigBuilder F
  new_config = record { device_name = none; parameters = [] }

  abbrev pub device : String → ConfigBuilder F → ConfigBuilder F
  device name c = record c { device_name = some name }

  abbrev pub param : String → SenmlValue F → ConfigBuilder F → ConfigBuilder F
  param name x c = record c { parameters = c.parameters ++ ((name, x) ∷ []) }

  abbrev pub param_number : String → F → ConfigBuilder F → ConfigBuilder F
  param_number name x c = param name (number x) c

  abbrev pub param_string : String → String → ConfigBuilder F → ConfigBuilder F
  param_string name x c = param name (string x) c

  abbrev pub param_bool : String → Bool → ConfigBuilder F → ConfigBuilder F
  param_bool name x c = param name (boolean x) c

  abbrev pub named_record : String → SenmlValue F → SenmlRecord F
  named_record name (number x) = with_value name x
  named_record name (string x) = with_string_value name x
  named_record name (boolean x) = with_bool_value name x
  named_record name (bytes x) = with_data_value name x

  add_params : List (String × SenmlValue F) → SenmlBuilder F → SenmlBuilder F
  add_params [] b = b
  add_params ((name, x) ∷ rest) b = add_params rest (add_record (named_record name x) b)

  abbrev with_device : Option String → SenmlBuilder F → SenmlBuilder F
  with_device none b = b
  with_device (some name) b = set_base_name name b

  unfoldable pub build_config : ConfigBuilder F → SenmlPack F
  unfolding add_params build
  build_config c = build (add_params c.parameters (with_device c.device_name new))

-- ===== src/Senml/Record.antt =====
-- `SenMLRecord` of coapum-senml/src/record.rs, with the setters that builder.rs adds.
pub mod Laws
use coapum.Prelude.{
  ℕ, ◌+◌, ℤ, Bool, true, false, not, ◌&&◌, ◌||◌, Option, none, some, String, Bytes, codes, is_some,
  ltb, ◌++◌, Result, ok, err, ◌>>◌, ensure, if◌then◌else◌,
}
use coapum.Senml.{Double, SenmlError, invalid_field_value, validation_error}
use coapum.Senml.Base64.{base64_encode, base64_decode}

pub record SenmlRecord (F : Type 0) : Type 0 where
  pub bn : Option String
  pub bt : Option F
  pub bu : Option String
  pub bv : Option F
  pub bs : Option F
  pub bver : Option ℤ
  pub n : Option String
  pub u : Option String
  pub v : Option F
  pub vs : Option String
  pub vb : Option Bool
  pub vd : Option String
  pub s : Option F
  pub t : Option F
  pub ut : Option F

pub data SenmlValue (F : Type 0) : Type 0 where
  number : F → SenmlValue F
  string : String → SenmlValue F
  boolean : Bool → SenmlValue F
  bytes : Bytes → SenmlValue F

abbrev pub join_names : Option String → Option String → Option String
join_names (some name) (some base) = some (base ++ name)
join_names (some name) none = some name
join_names none (some base) = some base
join_names none none = none

abbrev pub count_one : Bool → ℕ
count_one b = if b then 1 else 0

module _ {F : Type 0} where
  abbrev pub new : SenmlRecord F
  new = record {
    bn = none;
    bt = none;
    bu = none;
    bv = none;
    bs = none;
    bver = none;
    n = none;
    u = none;
    v = none;
    vs = none;
    vb = none;
    vd = none;
    s = none;
    t = none;
    ut = none;
  }

  abbrev pub with_value : String → F → SenmlRecord F
  with_value name value = record new { n = some name; v = some value }

  abbrev pub with_string_value : String → String → SenmlRecord F
  with_string_value name value = record new { n = some name; vs = some value }

  abbrev pub with_bool_value : String → Bool → SenmlRecord F
  with_bool_value name value = record new { n = some name; vb = some value }

  abbrev pub with_data_value : String → Bytes → SenmlRecord F
  with_data_value name data' = record new { n = some name; vd = some (base64_encode data') }

  abbrev pub with_unit : String → SenmlRecord F → SenmlRecord F
  with_unit unit r = record r { u = some unit }

  abbrev pub with_time : F → SenmlRecord F → SenmlRecord F
  with_time time r = record r { t = some time }

  abbrev pub with_sum : F → SenmlRecord F → SenmlRecord F
  with_sum sum r = record r { s = some sum }

  abbrev pub with_name : String → SenmlRecord F → SenmlRecord F
  with_name name r = record r { n = some name }

  abbrev pub with_update_time : F → SenmlRecord F → SenmlRecord F
  with_update_time time r = record r { ut = some time }

  -- The value of the data field alone, if it decodes.
  unfoldable pub data_of : Option Bytes → Option (SenmlValue F)
  data_of none = none
  data_of (some d) = some (bytes d)

  value_of : Option F → Option String → Option Bool → Option String → Option (SenmlValue F)
  unfolding data_of
  value_of (some x) vs vb vd = some (number x)
  value_of none (some x) vb vd = some (string x)
  value_of none none (some x) vd = some (boolean x)
  value_of none none none (some x) = data_of (base64_decode x)
  value_of none none none none = none

  unfoldable pub value : SenmlRecord F → Option (SenmlValue F)
  unfolding value_of
  value r = value_of r.v r.vs r.vb r.vd

  unfoldable pub has_value : SenmlRecord F → Bool
  has_value r = is_some r.v || (is_some r.vs || (is_some r.vb || is_some r.vd))

  unfoldable pub has_base_fields : SenmlRecord F → Bool
  has_base_fields r =
      is_some r.bn
      || (is_some r.bt || (is_some r.bu || (is_some r.bv || (is_some r.bs || is_some r.bver))))

  unfoldable pub resolved_name : SenmlRecord F → Option String → Option String
  resolved_name r base_name = join_names r.n base_name

  unfoldable pub value_count : SenmlRecord F → ℕ
  value_count r =
      count_one (is_some r.v)
      + count_one (is_some r.vs)
      + count_one (is_some r.vb)
      + count_one (is_some r.vd)

  -- `From<SenMLValue>`
  unfoldable pub from_value : SenmlValue F → SenmlRecord F
  from_value (number x) = record new { v = some x }
  from_value (string x) = record new { vs = some x }
  from_value (boolean x) = record new { vb = some x }
  from_value (bytes x) = record new { vd = some (base64_encode x) }

-- A field that is there passes the test.
abbrev pub passes : {A : Type 0} → (A → Bool) → Option A → Bool
passes p none = true
passes p (some x) = p x

abbrev pub decodes : String → Bool
decodes vd = is_some (base64_decode vd)

module _ (float : Double) where
  -- Finite and not negative.
  abbrev pub is_duration : float.Num → Bool
  is_duration x = float.is_finite x && not (float.lt x float.zero)

  unfoldable pub validate : SenmlRecord float.Num → Result SenmlError (Unit {0})
  unfolding has_value value_count
  validate r =
      ensure (has_value r || is_some r.s) validation_error
      >> ensure (ltb (value_count r) 2) validation_error
      >> ensure (passes float.is_finite r.t) (invalid_field_value (codes "t"))
      >> ensure (passes is_duration r.ut) (invalid_field_value (codes "ut"))
      >> ensure (passes float.is_finite r.v) (invalid_field_value (codes "v"))
      >> ensure (passes float.is_finite r.s) (invalid_field_value (codes "s"))
      >> ensure (passes decodes r.vd) (invalid_field_value (codes "vd"))

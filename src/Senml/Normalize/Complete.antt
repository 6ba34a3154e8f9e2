-- ===== src/Senml/Normalize/Complete.antt =====
-- Normalizing loses no record of a valid pack.
use mathlib.Core.Path.{ap}
use coapum.Prelude.{
  suc, ◌+◌, ◌++◌, ◌≡◌, ◌⊎◌, refl, Bool, true, false, ◌||◌, Option, none, some, List, [], ◌∷◌,
  String, All, length, is_empty, is_some, unwrap_or, ok, if◌then◌else◌, arith,
}
use coapum.Senml.{Double}
use coapum.Senml.Record.{SenmlRecord, value_count, passes, decodes, count_one}
use coapum.Senml.Record.Laws.{IsValid}
use coapum.Senml.Pack.{validate}
use coapum.Senml.Pack.Laws.{validate-eq-ok_iff}
use coapum.Senml.Normalize.{
  has_value, has_value_or_sum, decoded, offset, resolved, resolve_name, keep, normalize_record,
  normalize_each, from_records, from_pack,
}

-- A record has a name, of its own or from the base name.
abbrev pub IsNamed : {F : Type 0} → String → SenmlRecord F → Type 0
IsNamed base_name r = (is_empty base_name ≡ false) ⊎ (is_some r.n ≡ true)

module _ (float : Double) where
  open float use {Num, zero}

  is_some-offset : (base : Num) (o : Option Num) → is_some (offset float base o) ≡ is_some o
  is_some-offset base none = refl
  is_some-offset base (some x) = refl

  is_some-decoded : (o : Option String) → passes decodes o ≡ true → is_some (decoded o) ≡ is_some o
  is_some-decoded none h = refl
  is_some-decoded (some vd) h = h

  -- The tests on the presence of a value.
  present :
      (a b c d e : Bool)
      → (count_one a + count_one b + count_one c + count_one d ≡ 1)
        ⊎ ((count_one a + count_one b + count_one c + count_one d ≡ 0) × (e ≡ true))
      → ((a || (b || (c || d))) || e) ≡ true
  present true b c d e h = refl
  present false true c d e h = refl
  present false false true d e h = refl
  present false false false true e h = refl
  present false false false false e h = ground arith

  has_value_or_sum-resolved :
      (r : SenmlRecord Num) (base_time : Num) (base_unit : Option String)
      (base_value base_sum : Num) (name : String)
      → IsValid float r
      → has_value_or_sum (resolved float r base_time base_unit base_value base_sum name) ≡ true
  unfolding has_value value_count
  has_value_or_sum-resolved r base_time base_unit base_value base_sum name v =
      rw
        (is_some-offset base_value r.v, is_some-offset base_sum r.s, is_some-decoded r.vd v.data_ok)
        (present (is_some r.v) (is_some r.vs) (is_some r.vb) (is_some r.vd) (is_some r.s) v.content)

  name_resolves :
      (base_name : String) (o : Option String)
      → (is_empty base_name ≡ false) ⊎ (is_some o ≡ true)
      → (name : String) × (resolve_name o base_name ≡ ok name)
  name_resolves base_name (some n) h = (if is_empty base_name then n else base_name ++ n, refl)
  name_resolves [] none h = absurd (ground arith)
  name_resolves (c ∷ base_name) none h = (c ∷ base_name, refl)

  length-normalize_each :
      (base_name : String) (base_time : Num) (base_unit : Option String) (base_value base_sum : Num)
      (rs : List (SenmlRecord Num))
      → All (IsValid float) rs
      → All (IsNamed base_name) rs
      → length (normalize_each float base_name base_time base_unit base_value base_sum rs)
        ≡ length rs
  unfolding normalize_each normalize_record keep
  length-normalize_each base_name base_time base_unit base_value base_sum [] v h = refl
  length-normalize_each base_name base_time base_unit base_value base_sum (r ∷ rs) (v, vs) (h, hs) =
      let (name, e) = name_resolves base_name r.n h in
      rw
        (
          normalize_record,
          e,
          has_value_or_sum-resolved r base_time base_unit base_value base_sum name v,
        )
        (ap suc (length-normalize_each base_name base_time base_unit base_value base_sum rs vs hs))

  -- A valid pack whose records all have a name normalizes to as many records as it has.
  pub length-from_pack :
      (first : SenmlRecord Num) (rs : List (SenmlRecord Num))
      → validate float (record { records = first ∷ rs }) ≡ ok tt
      → All (IsNamed (unwrap_or first.bn [])) (first ∷ rs)
      → length (from_pack float (record { records = first ∷ rs })).records ≡ length (first ∷ rs)
  unfolding from_pack from_records
  length-from_pack first rs e h =
      let v = (validate-eq-ok_iff float (record { records = first ∷ rs })).0 e in
      length-normalize_each (unwrap_or first.bn []) (unwrap_or first.bt zero) first.bu
        (unwrap_or first.bv zero) (unwrap_or first.bs zero) (first ∷ rs) v.records_ok h

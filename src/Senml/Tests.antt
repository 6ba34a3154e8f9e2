-- ===== src/Senml/Tests.antt =====
-- Runs of coapum-senml, and its theorems at concrete inputs: numbers are naturals, and ciborium is a
-- tree of values that is its own encoding.
use coapum.Prelude.{
  ℕ, ◌+◌, ◌-◌, ℤ, pos, negsuc, min, max, ◌≡◌, ◌↔◌, inr, refl, sym, ap, ltb, leb, nat_beq, Bool,
  true, false, Option, none, some, List, [], ◌∷◌, String, codes, map, length, ok, err, string_eq,
  arith, if◌then◌else◌,
}
use coapum.HashMap
use coapum.Senml.{Double, validation_error}
use coapum.Senml.Record
use coapum.Senml.Record.{
  SenmlRecord, SenmlValue, bytes, value, from_value, with_value, with_string_value, with_unit,
  with_time, has_value, value_count,
}
use coapum.Senml.Record.Laws.{value-from_value}
use coapum.Senml.Pack
use coapum.Senml.Pack.{SenmlPack}
use coapum.Senml.Normalize.{from_pack, to_pack, group_by_prefix}
use coapum.Senml.Normalize.RoundTrip.{normalize_idempotent}
use coapum.Senml.Normalize.Complete.{length-from_pack}
use coapum.Senml.Normalize.Queries.{get-group_by_prefix, joined, with_prefix}
use coapum.Senml.Builder.{
  SenmlBuilder, TimeSeriesBuilder, build, has_base_values, build_series, new_series, measurement,
  set_base_name, add_value,
}
use coapum.Senml.Builder
use coapum.Senml.Builder.Laws.{from_pack-build_series, measured}
use coapum.Senml.Cbor.{
  Ciborium, to_cbor, from_cbor, from_cbor_validated, pack_to_value, is_cbor_array,
}
use coapum.Senml.Cbor.RoundTrip.{from_cbor-to_cbor, from_cbor_validated-build}
use coapum.Senml.Json.{SerdeJson}
use coapum.Extract.Payload.{Message}
use coapum.Extract.Payload.RoundTrip.{from_request-to_cbor}
use coapum.Extract.Payload.Senml
use coapum.Senml.Validation.{validate_pack, iot_sensor}
use coapum.Senml.Validation.Laws.{validate_pack-eq-ok_iff, IsAccepted}

abbrev to_nat : ℤ → ℕ
to_nat (pos n) = n
to_nat (negsuc n) = 0

abbrev naturals : Double
naturals = record {
  Num = ℕ;
  zero = 0;
  add = λ a b. a + b;
  sub = λ a b. a - b;
  eq = nat_beq;
  lt = ltb;
  le = leb;
  min = min;
  max = max;
  infinity = 1000000;
  neg_infinity = 0;
  is_finite = λ x. true;
  is_nan = λ x. false;
  as_i64 = pos;
  of_int = to_nat;
  eq_zero = refl;
}

mutual
  data Tree : Type 0 where
    text : String → Tree
    float : ℕ → Tree
    bool : Bool → Tree
    integer : ℤ → Tree
    table : Pairs → Tree
    sequence : Trees → Tree

  data Pairs : Type 0 where
    no_pairs : Pairs
    pair_and : Tree → Tree → Pairs → Pairs

  data Trees : Type 0 where
    no_trees : Trees
    tree_and : Tree → Trees → Trees

abbrev pairs_in : Pairs → List (Tree × Tree)
pairs_in no_pairs = []
pairs_in (pair_and k x ps) = (k, x) ∷ pairs_in ps

abbrev to_pairs : List (Tree × Tree) → Pairs
to_pairs [] = no_pairs
to_pairs ((k, x) ∷ ps) = pair_and k x (to_pairs ps)

pairs_in-to_pairs : (ps : List (Tree × Tree)) → pairs_in (to_pairs ps) ≡ ps
pairs_in-to_pairs [] = refl
pairs_in-to_pairs (p ∷ ps) = ap (λ l. p ∷ l) (pairs_in-to_pairs ps)

abbrev trees_in : Trees → List Tree
trees_in no_trees = []
trees_in (tree_and x xs) = x ∷ trees_in xs

abbrev to_trees : List Tree → Trees
to_trees [] = no_trees
to_trees (x ∷ xs) = tree_and x (to_trees xs)

trees_in-to_trees : (xs : List Tree) → trees_in (to_trees xs) ≡ xs
trees_in-to_trees [] = refl
trees_in-to_trees (x ∷ xs) = ap (λ l. x ∷ l) (trees_in-to_trees xs)

abbrev as_text : Tree → Option String
as_text (text s) = some s
as_text _ = none

abbrev as_float : Tree → Option ℕ
as_float (float x) = some x
as_float _ = none

abbrev as_bool : Tree → Option Bool
as_bool (bool b) = some b
as_bool _ = none

abbrev as_integer : Tree → Option ℤ
as_integer (integer i) = some i
as_integer _ = none

abbrev as_map : Tree → Option (List (Tree × Tree))
as_map (table ps) = some (pairs_in ps)
as_map _ = none

abbrev as_array : Tree → Option (List Tree)
as_array (sequence xs) = some (trees_in xs)
as_array _ = none

abbrev trees : Ciborium ℕ
trees = record {
  Value = Tree;
  Wire = Tree;
  text = text;
  float = float;
  bool = bool;
  integer = integer;
  map_of = λ ps. table (to_pairs ps);
  array = λ xs. sequence (to_trees xs);
  as_text = as_text;
  as_float = as_float;
  as_bool = as_bool;
  as_integer = as_integer;
  as_map = as_map;
  as_array = as_array;
  into_writer = ok;
  from_reader_with_recursion_limit = λ limit x. ok x;
  as_text-text = λ s. refl;
  as_float-float = λ x. refl;
  as_bool-bool = λ b. refl;
  as_integer-integer = λ i. refl;
  as_float-integer = λ i. refl;
  as_map-map_of = λ ps. ap some (pairs_in-to_pairs ps);
  as_array-array = λ xs. ap some (trees_in-to_trees xs);
}

abbrev temperature : SenmlRecord ℕ
temperature = with_time 5 (with_unit (codes "Cel") (with_value (codes "temperature") 21))

abbrev status : SenmlRecord ℕ
status = with_string_value (codes "hall/status") (codes "ok")

abbrev house : SenmlPack ℕ
house = record { records = temperature ∷ status ∷ [] }

abbrev based : SenmlBuilder ℕ
based = add_value (codes "t") 21 (set_base_name (codes "urn:dev/") Builder.new)

abbrev series : TimeSeriesBuilder ℕ
series = measurement 1 21 (measurement 0 20 (new_series (codes "hall/t") 100))

value-from_value_example :
    value {F = ℕ} (from_value (bytes (1 ∷ 2 ∷ 255 ∷ []))) ≡ some (bytes (1 ∷ 2 ∷ 255 ∷ []))
value-from_value_example =
    value-from_value (bytes (1 ∷ 2 ∷ 255 ∷ [])) (omega arith, (omega arith, (omega arith, tt)))

from_cbor-to_cbor_example : from_cbor naturals trees (pack_to_value naturals trees house) ≡ ok house
unfolding to_cbor
from_cbor-to_cbor_example =
    from_cbor-to_cbor naturals trees house (pack_to_value naturals trees house) (refl, (refl, tt))
      refl (λ x e. sym e)

from_cbor_validated-build_example :
    from_cbor_validated naturals trees (pack_to_value naturals trees (build based))
    ≡ err validation_error
unfolding to_cbor has_base_values
from_cbor_validated-build_example =
    from_cbor_validated-build naturals trees based (pack_to_value naturals trees (build based)) refl
      (refl, tt) refl (λ x e. sym e)

from_pack-build_series_example :
    (from_pack naturals (build_series series)).records
    ≡ map (measured naturals series) series.measurements
from_pack-build_series_example = from_pack-build_series naturals series

normalize_idempotent_example :
    from_pack naturals (to_pack (from_pack naturals house))
    ≡ record { records = (from_pack naturals house).records; version = none }
normalize_idempotent_example = normalize_idempotent naturals house

length-from_pack_example : length (from_pack naturals house).records ≡ 2
unfolding Pack.validate Record.validate has_value value_count
length-from_pack_example =
    length-from_pack naturals temperature (status ∷ []) refl (inr refl, (inr refl, tt))

get-group_by_prefix_example :
    HashMap.get (codes "hall") (group_by_prefix (from_pack naturals house))
    ≡ joined none (with_prefix (codes "hall") (from_pack naturals house).records)
get-group_by_prefix_example = get-group_by_prefix (codes "hall") (from_pack naturals house)

validate_pack-eq-ok_iff_example :
    (validate_pack naturals (iot_sensor naturals) house ≡ ok tt)
    ↔ IsAccepted naturals (iot_sensor naturals) house
validate_pack-eq-ok_iff_example =
    validate_pack-eq-ok_iff naturals (iot_sensor naturals) house (λ x h. ground arith) refl

-- A payload that begins as an array of two records is the pack of the house.
abbrev received : List ℕ → Tree
received [] = integer (pos 0)
received (b ∷ rest) = if nat_beq b 0x82 then pack_to_value naturals trees house else integer (pos 0)

abbrev no_json : SerdeJson ℕ ℕ
no_json = record { to_string = λ pack. err 0; from_str = λ text. err 0 }

abbrev sent : Message
sent = record { payload = 0x82 ∷ 0xa0 ∷ []; content_format = none }

from_request-to_cbor_example : Senml.from_request naturals trees received no_json sent ≡ ok house
unfolding to_cbor is_cbor_array
from_request-to_cbor_example =
    from_request-to_cbor naturals trees received no_json sent house (omega arith, omega arith)
      (inr (inr (refl, refl))) (refl, (refl, tt)) refl (λ x e. sym e)

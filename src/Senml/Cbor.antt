-- ===== src/Senml/Cbor.antt =====
-- The CBOR codec of coapum-senml/src/pack.rs and cbor.rs: records as maps with the integer labels of
-- RFC 8428. The values and the bytes of the library ciborium are parameters.
pub mod Labels
pub mod RoundTrip
use coapum.Prelude.{
  ℕ, ℤ, pos, negsuc, fits, ◌≡◌, Bool, true, false, ◌||◌, Option, none, some, List, [], ◌∷◌, ◌++◌,
  String, map, is_some, Result, ok, err, ◌>>=◌, is_ok, if◌then◌else◌, int_beq, codes, Bytes,
  nat_beq, ◌/◌,
}
use coapum.Str.{starts_with}
use coapum.Senml.{Double, SenmlError, deserialization_error}
use coapum.Senml.Record
use coapum.Senml.Record.{SenmlRecord}
use coapum.Senml.Pack
use coapum.Senml.Cbor.Labels
use coapum.Senml.Pack.{SenmlPack}

-- What the code calls of ciborium: `Value`, its variants and what a match finds in them, the writer,
-- and the reader with its limit on the depth.
pub record Ciborium (F : Type 0) : Type 1 where
  pub Value : Type 0
  pub Wire : Type 0
  pub text : String → Value
  pub float : F → Value
  pub bool : Bool → Value
  pub integer : ℤ → Value
  pub map_of : List (Value × Value) → Value
  pub array : List Value → Value
  pub as_text : Value → Option String
  pub as_float : Value → Option F
  pub as_bool : Value → Option Bool
  pub as_integer : Value → Option ℤ
  pub as_map : Value → Option (List (Value × Value))
  pub as_array : Value → Option (List Value)
  pub into_writer : Value → Result SenmlError Wire
  pub from_reader_with_recursion_limit : ℕ → Wire → Result SenmlError Value
  pub as_text-text : (s : String) → as_text (text s) ≡ some s
  pub as_float-float : (x : F) → as_float (float x) ≡ some x
  pub as_bool-bool : (b : Bool) → as_bool (bool b) ≡ some b
  pub as_integer-integer : (i : ℤ) → as_integer (integer i) ≡ some i
  pub as_float-integer : (i : ℤ) → as_float (integer i) ≡ none
  pub as_map-map_of : (ps : List (Value × Value)) → as_map (map_of ps) ≡ some ps
  pub as_array-array : (vs : List Value) → as_array (array vs) ≡ some vs

abbrev pub max_cbor_recursion_depth : ℕ
max_cbor_recursion_depth = 32

-- A loop that collects the results and stops at the first error.
abbrev pub collect :
    {A B : Type 0} → (A → Result SenmlError B) → List A → Result SenmlError (List B)
collect f [] = ok []
collect f (x ∷ xs) = f x >>= λ y. collect f xs >>= λ ys. ok (y ∷ ys)

module _ (double : Double) (cbor : Ciborium double.Num) where
  open double use {Num}
  open cbor use {Value, Wire}

  -- `push_opt!`: the pairs of one field.
  abbrev pub push_opt : {A : Type 0} → ℤ → (A → Value) → Option A → List (Value × Value)
  push_opt label conv none = []
  push_opt label conv (some a) = (cbor.integer label, conv a) ∷ []

  abbrev pub pairs_of : SenmlRecord Num → List (Value × Value)
  pairs_of r =
      push_opt Labels.bn cbor.text r.bn
      ++ (push_opt Labels.bt cbor.float r.bt
          ++ (push_opt Labels.bu cbor.text r.bu
              ++ (push_opt Labels.bv cbor.float r.bv
                  ++ (push_opt Labels.bs cbor.float r.bs
                      ++ (push_opt Labels.bver cbor.integer r.bver
                          ++ (push_opt Labels.n cbor.text r.n
                              ++ (push_opt Labels.u cbor.text r.u
                                  ++ (push_opt Labels.v cbor.float r.v
                                      ++ (push_opt Labels.vs cbor.text r.vs
                                          ++ (push_opt Labels.vb cbor.bool r.vb
                                              ++ (push_opt Labels.vd cbor.text r.vd
                                                  ++ (push_opt Labels.s cbor.float r.s
                                                      ++ (push_opt Labels.t cbor.float r.t
                                                          ++ (push_opt Labels.ut cbor.float r.ut
                                                            ++ []))))))))))))))

  unfoldable pub record_to_cbor_value : SenmlRecord Num → Value
  record_to_cbor_value r = cbor.map_of (pairs_of r)

  unfoldable pub as_f64 : Value → Option Num
  as_f64 x = elim (cbor.as_float x) [
    | some f ↦ some f
    | none ↦ elim (cbor.as_integer x) [ none ↦ none | some i ↦ some (double.of_int i) ]
  ]

  unfoldable pub as_i32 : Value → Option ℤ
  as_i32 x = elim (cbor.as_integer x) [
    | none ↦ none
    | some i ↦ if fits 2147483648 i then some i else none
  ]

  -- A Boolean that is there.
  abbrev set_vb : Option Bool → SenmlRecord Num → SenmlRecord Num
  set_vb none r = r
  set_vb (some b) r = record r { vb = some b }

  -- The arms of the match on a label.
  unfoldable pub set_field : ℤ → Value → SenmlRecord Num → SenmlRecord Num
  unfolding as_f64 as_i32
  set_field label x r =
      if int_beq label Labels.bn
      then record r { bn = cbor.as_text x }
      else if int_beq label Labels.bt
      then record r { bt = as_f64 x }
      else if int_beq label Labels.bu
      then record r { bu = cbor.as_text x }
      else if int_beq label Labels.bv
      then record r { bv = as_f64 x }
      else if int_beq label Labels.bs
      then record r { bs = as_f64 x }
      else if int_beq label Labels.bver
      then record r { bver = as_i32 x }
      else if int_beq label Labels.n
      then record r { n = cbor.as_text x }
      else if int_beq label Labels.u
      then record r { u = cbor.as_text x }
      else if int_beq label Labels.v
      then record r { v = as_f64 x }
      else if int_beq label Labels.vs
      then record r { vs = cbor.as_text x }
      else if int_beq label Labels.vb
      then set_vb (cbor.as_bool x) r
      else if int_beq label Labels.vd
      then record r { vd = cbor.as_text x }
      else if int_beq label Labels.s
      then record r { s = as_f64 x }
      else if int_beq label Labels.t
      then record r { t = as_f64 x }
      else if int_beq label Labels.ut
      then record r { ut = as_f64 x }
      else r

  -- What one pair does to the record: keys that are not integers of 64 bits are skipped.
  unfoldable pub read_pair : SenmlRecord Num → Option ℤ → Value → SenmlRecord Num
  unfolding set_field
  read_pair r none x = r
  read_pair r (some label) x = if fits 9223372036854775808 label then set_field label x r else r

  unfoldable pub read_pairs : SenmlRecord Num → List (Value × Value) → SenmlRecord Num
  unfolding read_pair
  read_pairs r [] = r
  read_pairs r ((key, x) ∷ ps) = read_pairs (read_pair r (cbor.as_integer key) x) ps

  unfoldable pub cbor_value_to_record : Value → Result SenmlError (SenmlRecord Num)
  unfolding read_pairs
  cbor_value_to_record x = elim (cbor.as_map x) [
    | none ↦ err deserialization_error
    | some pairs ↦ ok (read_pairs Record.new pairs)
  ]

  unfoldable pub pack_to_value : SenmlPack Num → Value
  unfolding record_to_cbor_value
  pack_to_value p = cbor.array (map record_to_cbor_value p.records)

  unfoldable pub to_cbor : SenmlPack Num → Result SenmlError Wire
  unfolding pack_to_value
  to_cbor p = cbor.into_writer (pack_to_value p)

  unfoldable pub value_to_pack : Value → Result SenmlError (SenmlPack Num)
  unfolding cbor_value_to_record
  value_to_pack x = elim (cbor.as_array x) [
    | none ↦ err deserialization_error
    | some xs ↦ collect cbor_value_to_record xs >>= λ records. ok (record { records = records })
  ]

  unfoldable pub from_cbor : Wire → Result SenmlError (SenmlPack Num)
  unfolding value_to_pack
  from_cbor bytes =
      cbor.from_reader_with_recursion_limit max_cbor_recursion_depth bytes >>= value_to_pack

  -- The parsed pack, if it is valid.
  unfoldable pub from_cbor_validated : Wire → Result SenmlError (SenmlPack Num)
  unfolding from_cbor
  from_cbor_validated bytes = from_cbor bytes >>= λ pack. Pack.validate double pack >>= λ _. ok pack

  abbrev pub is_valid_cbor_senml : Wire → Bool
  unfolding from_cbor
  is_valid_cbor_senml bytes = is_ok (from_cbor bytes)

-- The major type of a CBOR item: the three high bits of its first byte.
unfoldable pub get_cbor_major_type : Bytes → Option ℕ
get_cbor_major_type [] = none
get_cbor_major_type (b ∷ bytes) = some (b / 32)

unfoldable pub is_cbor_array : Bytes → Bool
unfolding get_cbor_major_type
is_cbor_array bytes = elim (get_cbor_major_type bytes) [ none ↦ false | some m ↦ nat_beq m 4 ]

unfoldable pub parse_cbor_content_type : String → Option String
parse_cbor_content_type content_type =
    if starts_with (codes "application/senml+cbor") content_type
    then some (codes "senml")
    else if starts_with (codes "application/sensml+cbor") content_type
    then some (codes "sensml")
    else none

-- ===== src/Json.antt =====
-- `serde_json::Value`, which src/observer keeps device state in. `N` is the type of JSON numbers.
-- A `Map` is a `BTreeMap`, kept in the order of its keys.
pub mod Laws
use coapum.Prelude.{
  ℕ, Bool, true, false, Option, none, some, [], ◌∷◌, ltb, if◌then◌else◌, String, ◌==◌, string_eq,
  PartialEq, ◌&&◌,
}

mutual
  pub data Value (N : Type 0) : Type 0 where
    null : Value N
    bool : Bool → Value N
    number : N → Value N
    string : String → Value N
    array : Values N → Value N
    object : Map N → Value N

  pub data Values (N : Type 0) : Type 0 where
    nil : Values N
    cons : Value N → Values N → Values N

  pub data Map (N : Type 0) : Type 0 where
    empty : Map N
    entry : String → Value N → Map N → Map N

-- The order of keys: code point by code point, as in the bytes of UTF-8.
abbrev pub str_lt : String → String → Bool
str_lt s [] = false
str_lt [] (y ∷ t) = true
str_lt (x ∷ s) (y ∷ t) = if ltb x y then true else if ltb y x then false else str_lt s t

module _ {N : Type 0} where
  unfoldable pub get : String → Map N → Option (Value N)
  get k empty = none
  get k (entry j v m) = if j == k then some v else get k m

  unfoldable pub insert : String → Value N → Map N → Map N
  insert k v empty = entry k v empty
  insert k v (entry j w m) =
      let later = entry j w (insert k v m) in
      if j == k then entry k v m else if str_lt k j then entry k v (entry j w m) else later

-- `PartialEq`
module _ {N : Type 0} ⦃e : PartialEq N⦄ where
  unfoldable mutual
    pub value_eq : Value N → Value N → Bool
    value_eq null null = true
    value_eq (bool true) (bool b) = b
    value_eq (bool false) (bool true) = false
    value_eq (bool false) (bool false) = true
    value_eq (number a) (number b) = a == b
    value_eq (string s) (string t) = s == t
    value_eq (array xs) (array ys) = values_eq xs ys
    value_eq (object m) (object n) = map_eq m n
    value_eq _ _ = false

    pub values_eq : Values N → Values N → Bool
    values_eq nil nil = true
    values_eq (cons x xs) (cons y ys) = value_eq x y && values_eq xs ys
    values_eq _ _ = false

    pub map_eq : Map N → Map N → Bool
    map_eq empty empty = true
    map_eq (entry k v m) (entry j w n) = k == j && (value_eq v w && map_eq m n)
    map_eq _ _ = false

  -- `PartialEq` of two `Option<&Value>`
  unfoldable pub option_eq : Option (Value N) → Option (Value N) → Bool
  option_eq none none = true
  option_eq (some v) (some w) = value_eq v w
  option_eq _ _ = false

-- ===== src/Json/Laws.antt =====
-- Lookups in a JSON object, and that the equality test decides equality.
use mathlib.Core.Path.{ap₂}
use mathlib.Core.Bool.{and-eq-true_iff}
use coapum.Prelude.{
  ◌≡◌, ◌↔◌, refl, ap, true, false, Option, none, some, if◌then◌else◌, String, ◌==◌, string_eq,
  PartialEq, arith, list_beq_iff,
}
use coapum.Json.{
  Value, null, bool, number, string, array, object, Values, nil, cons, Map, empty, entry, get,
  insert, value_eq, values_eq, map_eq, option_eq,
}

module _ {N : Type 0} where
  pub get-insert :
      (k j : String) (v : Value N) (m : Map N)
      → get j (insert k v m) ≡ (if k == j then some v else get j m)
  unfolding get insert
  get-insert k j v empty = refl
  get-insert k j v (entry i w m) =
      ground (arith, get-insert k j v m, list_beq_iff i k, list_beq_iff i j, list_beq_iff k j)

  entry_eq :
      {k j : String} {v w : Value N} {m n : Map N}
      → k ≡ j
      → v ≡ w
      → m ≡ n
      → entry k v m ≡ entry j w n
  entry_eq p q r = cc

module _ {N : Type 0} ⦃e : PartialEq N⦄ where
  mutual
    unfolding value_eq

    pub value_eq_sound : (v w : Value N) → value_eq v w ≡ true → v ≡ w
    value_eq_sound null null h = refl
    value_eq_sound (bool true) (bool true) h = refl
    value_eq_sound (bool false) (bool false) h = refl
    value_eq_sound (number a) (number b) h = ap number ((e.eq_exact a b).0 h)
    value_eq_sound (string s) (string t) h = ap string ((list_beq_iff s t).0 h)
    value_eq_sound (array xs) (array ys) h = ap array (values_eq_sound xs ys h)
    value_eq_sound (object m) (object n) h = ap object (map_eq_sound m n h)
    value_eq_sound _ _ h = cc

    values_eq_sound : (xs ys : Values N) → values_eq xs ys ≡ true → xs ≡ ys
    values_eq_sound nil nil h = refl
    values_eq_sound (cons x xs) (cons y ys) h =
        let (here, later) = (and-eq-true_iff _ _).0 h in
        ap₂ cons (value_eq_sound x y here) (values_eq_sound xs ys later)
    values_eq_sound _ _ h = cc

    map_eq_sound : (m n : Map N) → map_eq m n ≡ true → m ≡ n
    map_eq_sound empty empty h = refl
    map_eq_sound (entry k v m) (entry j w n) h =
        let (key, rest) = (and-eq-true_iff _ _).0 h in
        let (here, later) = (and-eq-true_iff _ _).0 rest in
        entry_eq ((list_beq_iff k j).0 key) (value_eq_sound v w here) (map_eq_sound m n later)
    map_eq_sound _ _ h = cc

  mutual
    unfolding value_eq

    value_eq_refl : (v : Value N) → value_eq v v ≡ true
    value_eq_refl null = refl
    value_eq_refl (bool true) = refl
    value_eq_refl (bool false) = refl
    value_eq_refl (number a) = (e.eq_exact a a).1 refl
    value_eq_refl (string s) = (list_beq_iff s s).1 refl
    value_eq_refl (array xs) = values_eq_refl xs
    value_eq_refl (object m) = map_eq_refl m

    values_eq_refl : (xs : Values N) → values_eq xs xs ≡ true
    values_eq_refl nil = refl
    values_eq_refl (cons x xs) = rw (value_eq_refl x) (values_eq_refl xs)

    map_eq_refl : (m : Map N) → map_eq m m ≡ true
    map_eq_refl empty = refl
    map_eq_refl (entry k v m) = rw ((list_beq_iff k k).1 refl, value_eq_refl v) (map_eq_refl m)

  pub option_eq_iff : (o p : Option (Value N)) → (option_eq o p ≡ true) ↔ (o ≡ p)
  unfolding option_eq
  option_eq_iff none none = (λ _. refl, λ _. refl)
  option_eq_iff none (some w) = ground arith
  option_eq_iff (some v) none = ground arith
  option_eq_iff (some v) (some w) =
      (λ h. ap some (value_eq_sound v w h), λ h. ground (arith, value_eq_refl v))

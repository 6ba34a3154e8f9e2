-- ===== src/Prelude/Classes.antt =====
-- Equality tests as an interface, for numbers and for texts. A text of the program is the list of
-- its code points, and a byte string the list of its bytes.
use Prim.Native.Nat.{ℕ}
use Prim.Native.Char.{code}
use Prim.Native.String as NativeString
use Prim.Native.String.{String as Literal}
use mathlib.Core.Path.{◌≡◌, refl, ap₂}
use mathlib.Core.Logic.{◌↔◌}
use mathlib.Core.Bool.{Bool, true, false, ◌&&◌}
use mathlib.Core.List.{List, [], ◌∷◌}
use native.Mathlib.Omega.{arith}
use coapum.Prelude.Tests.{nat_beq, nat_beq_iff}

-- The trait `PartialEq`, where its test decides equality.
pub record PartialEq {ℓ} (K : Type ℓ) : Type ℓ where
  pub eq : K → K → Bool
  pub eq_exact : (x y : K) → (eq x y ≡ true) ↔ (x ≡ y)

module _ {ℓ} {K : Type ℓ} ⦃e : PartialEq K⦄ where
  infix 50 ◌==◌
  abbrev pub ◌==◌ : K → K → Bool
  x == y = e.eq x y

  pub beq_refl : (x : K) → (x == x) ≡ true
  beq_refl x = (e.eq_exact x x).1 refl

abbrev pub list_beq : List ℕ → List ℕ → Bool
list_beq [] [] = true
list_beq (x ∷ xs) (y ∷ ys) = nat_beq x y && list_beq xs ys
list_beq _ _ = false

list_beq_sound : (xs ys : List ℕ) → list_beq xs ys ≡ true → xs ≡ ys
list_beq_sound [] [] h = refl
list_beq_sound [] (y ∷ ys) h = cc
list_beq_sound (x ∷ xs) [] h = cc
list_beq_sound (x ∷ xs) (y ∷ ys) h = ap₂ ◌∷◌ (ground arith) (list_beq_sound xs ys (ground arith))

pub list_beq_refl : (xs : List ℕ) → list_beq xs xs ≡ true
list_beq_refl [] = refl
list_beq_refl (x ∷ xs) = ground (arith, list_beq_refl xs)

pub list_beq_iff : (xs ys : List ℕ) → (list_beq xs ys ≡ true) ↔ (xs ≡ ys)
list_beq_iff xs ys = (list_beq_sound xs ys, λ e. rw e (list_beq_refl ys))

instance abbrev pub string_eq : PartialEq (List ℕ)
string_eq = record { eq = list_beq; eq_exact = list_beq_iff }

instance abbrev pub nat_eq : PartialEq ℕ
nat_eq = record { eq = nat_beq; eq_exact = nat_beq_iff }

abbrev pub String : Type 0
String = List ℕ

abbrev pub Bytes : Type 0
Bytes = List ℕ

-- The code points of a text literal.
abbrev pub codes : Literal → String
codes NativeString.[] = []
codes (NativeString.◌∷◌ c s) = code c ∷ codes s

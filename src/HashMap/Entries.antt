-- ===== src/HashMap/Entries.antt =====
-- Predicates on the entries of a map, and the entry that a lookup finds.
use coapum.Prelude.{◌≡◌, Bool, true, some, [], ◌∷◌, PartialEq, arith, All}
use coapum.HashMap.{HashMap, get, insert, remove, retain}

module _ {ℓ κ μ} {K : Type ℓ} {V : Type κ} ⦃e : PartialEq K⦄ (P : K × V → Type μ) where
  pub insert-All : (k : K) (v : V) (m : HashMap K V) → All P m → P (k, v) → All P (insert k v m)
  unfolding insert
  insert-All k v [] h p = (p, tt)
  insert-All k v ((i, w) ∷ m) (q, h) p = ground (arith, insert-All k v m h p)

  pub remove-All : (k : K) (m : HashMap K V) → All P m → All P (remove k m)
  unfolding remove
  remove-All k [] h = tt
  remove-All k ((i, w) ∷ m) (q, h) = ground (arith, remove-All k m h)

  pub retain-All : (p : K → V → Bool) (m : HashMap K V) → All P m → All P (retain p m)
  unfolding retain
  retain-All p [] h = tt
  retain-All p ((i, w) ∷ m) (q, h) = ground (arith, retain-All p m h)

  pub All-get : (k : K) (v : V) (m : HashMap K V) → All P m → get k m ≡ some v → P (k, v)
  unfolding get
  All-get k v [] h g = cc
  All-get k v ((i, w) ∷ m) (q, h) g = ground (arith, All-get k v m h, e.eq_exact i k)

module _ {ℓ κ} {K : Type ℓ} {V : Type κ} ⦃e : PartialEq K⦄ where
  pub retain-All_passed :
      (p : K → V → Bool) (m : HashMap K V) → All (λ (x : K × V). p x.0 x.1 ≡ true) (retain p m)
  unfolding retain
  retain-All_passed p [] = tt
  retain-All_passed p ((i, w) ∷ m) = ground (arith, retain-All_passed p m)

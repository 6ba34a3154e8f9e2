-- ===== src/HashMap/Laws.antt =====
-- What a lookup returns after each operation of a map, and that keys stay distinct.
use coapum.Prelude.{
  true, ◌≡◌, ◌≢◌, refl, Bool, Option, none, some, [], ◌∷◌, PartialEq, ◌==◌, if◌then◌else◌, arith,
  beq_refl,
}
use coapum.HashMap.{HashMap, get, insert, remove, retain, HasDistinctKeys}

module _ {ℓ κ} {K : Type ℓ} {V : Type κ} ⦃e : PartialEq K⦄ where
  pub get-insert :
      (k j : K) (v : V) (m : HashMap K V)
      → get j (insert k v m) ≡ (if k == j then some v else get j m)
  unfolding get insert
  get-insert k j v [] = refl
  get-insert k j v ((i, w) ∷ m) =
      ground (arith, get-insert k j v m, e.eq_exact i k, e.eq_exact i j, e.eq_exact k j)

  pub get-remove :
      (k j : K) (m : HashMap K V) → get j (remove k m) ≡ (if k == j then none else get j m)
  unfolding get remove
  get-remove k j [] = ground arith
  get-remove k j ((i, w) ∷ m) =
      ground (arith, get-remove k j m, e.eq_exact i k, e.eq_exact i j, e.eq_exact k j)

  pub get-insert_self : (k : K) (v : V) (m : HashMap K V) → get k (insert k v m) ≡ some v
  get-insert_self k v m = rw (get-insert, beq_refl k)

  pub get-remove_self : (k : K) (m : HashMap K V) → get k (remove k m) ≡ none
  get-remove_self k m = rw (get-remove, beq_refl k)

  pub get-insert_ne : (k j : K) (v : V) (m : HashMap K V) → k ≢ j → get j (insert k v m) ≡ get j m
  get-insert_ne k j v m h = ground (arith, get-insert k j v m, e.eq_exact k j)

  pub get-remove_ne : (k j : K) (m : HashMap K V) → k ≢ j → get j (remove k m) ≡ get j m
  get-remove_ne k j m h = ground (arith, get-remove k j m, e.eq_exact k j)

  -- A kept entry, by the test on its key and value.
  abbrev pub kept : (K → V → Bool) → K → Option V → Option V
  kept p k none = none
  kept p k (some v) = if p k v then some v else none

  get-retain_of_none :
      (p : K → V → Bool) (k : K) (m : HashMap K V) → get k m ≡ none → get k (retain p m) ≡ none
  unfolding get retain
  get-retain_of_none p k [] h = refl
  get-retain_of_none p k ((i, w) ∷ m) h = ground (arith, get-retain_of_none p k m, e.eq_exact i k)

  -- An entry that is found and passes is found afterwards.
  pub get-retain_of_passed :
      (p : K → V → Bool) (k : K) (v : V) (m : HashMap K V)
      → get k m ≡ some v
      → p k v ≡ true
      → get k (retain p m) ≡ some v
  unfolding get retain
  get-retain_of_passed p k v [] h t = cc
  get-retain_of_passed p k v ((i, w) ∷ m) h t =
      ground (arith, get-retain_of_passed p k v m, e.eq_exact i k, h, t)

  pub get-retain :
      (p : K → V → Bool) (k : K) (m : HashMap K V)
      → HasDistinctKeys m
      → get k (retain p m) ≡ kept p k (get k m)
  unfolding get retain
  get-retain p k [] d = refl
  get-retain p k ((i, w) ∷ m) (fresh, d) =
      ground (arith, get-retain p k m d, get-retain_of_none p i m fresh, e.eq_exact i k)

  pub insert-HasDistinctKeys :
      (k : K) (v : V) (m : HashMap K V) → HasDistinctKeys m → HasDistinctKeys (insert k v m)
  unfolding insert get
  insert-HasDistinctKeys k v [] d = (refl, tt)
  insert-HasDistinctKeys k v ((i, w) ∷ m) (fresh, d) =
      ground
        (arith, insert-HasDistinctKeys k v m d, get-insert k i v m, e.eq_exact i k, e.eq_exact k i)

  pub remove-HasDistinctKeys :
      (k : K) (m : HashMap K V) → HasDistinctKeys m → HasDistinctKeys (remove k m)
  unfolding remove
  remove-HasDistinctKeys k [] d = tt
  remove-HasDistinctKeys k ((i, w) ∷ m) (fresh, d) =
      ground (arith, remove-HasDistinctKeys k m d, get-remove k i m)

  pub retain-HasDistinctKeys :
      (p : K → V → Bool) (m : HashMap K V) → HasDistinctKeys m → HasDistinctKeys (retain p m)
  unfolding retain
  retain-HasDistinctKeys p [] d = tt
  retain-HasDistinctKeys p ((i, w) ∷ m) (fresh, d) =
      ground (arith, retain-HasDistinctKeys p m d, get-retain_of_none p i m fresh)

pub ruleset map_laws = (get-insert, get-remove)

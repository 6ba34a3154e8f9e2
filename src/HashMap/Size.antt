-- ===== src/HashMap/Size.antt =====
-- The number of entries of a map.
use coapum.Prelude.{
  ℕ, zero, suc, ◌≤◌, ◌<◌, ◌≡◌, refl, Bool, true, none, [], ◌∷◌, PartialEq, if◌then◌else◌, arith,
  length, is_some, All, nat_eq,
}
use coapum.HashMap.{HashMap, get, insert, remove, retain, HasDistinctKeys}
use coapum.HashMap.Laws.{remove-HasDistinctKeys}

module _ {ℓ κ} {K : Type ℓ} {V : Type κ} ⦃e : PartialEq K⦄ where
  pub length-insert :
      (k : K) (v : V) (m : HashMap K V)
      → length (insert k v m) ≡ (if is_some (get k m) then length m else suc (length m))
  unfolding insert get
  length-insert k v [] = refl
  length-insert k v ((i, w) ∷ m) = ground (arith, length-insert k v m)

  pub length-insert-le : (k : K) (v : V) (m : HashMap K V) → length (insert k v m) ≤ suc (length m)
  length-insert-le k v m = ground (arith, length-insert k v m)

  pub remove_of_none : (k : K) (m : HashMap K V) → get k m ≡ none → remove k m ≡ m
  unfolding remove get
  remove_of_none k [] h = refl
  remove_of_none k ((i, w) ∷ m) h = ground (arith, remove_of_none k m)

  pub length-remove :
      (k : K) (m : HashMap K V)
      → HasDistinctKeys m
      → (if is_some (get k m) then suc (length (remove k m)) else length (remove k m)) ≡ length m
  unfolding remove get
  length-remove k [] d = refl
  length-remove k ((i, w) ∷ m) (fresh, d) =
      ground (arith, length-remove k m d, remove_of_none k m, e.eq_exact i k)

  pub length-remove-le : (k : K) (m : HashMap K V) → length (remove k m) ≤ length m
  unfolding remove
  length-remove-le k [] = omega arith
  length-remove-le k ((i, w) ∷ m) = ground (arith, length-remove-le k m)

  pub length-retain-le : (p : K → V → Bool) (m : HashMap K V) → length (retain p m) ≤ length m
  unfolding retain
  length-retain-le p [] = omega arith
  length-retain-le p ((i, w) ∷ m) = ground (arith, length-retain-le p m)

  -- A test that every entry passes keeps the map as it is.
  pub retain_of_All :
      (p : K → V → Bool) (m : HashMap K V)
      → All (λ (x : K × V). p x.0 x.1 ≡ true) m
      → retain p m ≡ m
  unfolding retain
  retain_of_All p [] h = refl
  retain_of_All p ((i, w) ∷ m) (q, h) = ground (arith, retain_of_All p m h)

-- Distinct numbers below `n` are at most `n` (the pigeonhole principle), also after a renaming.
module _ {κ} {V : Type κ} where
  remove-All_lt :
      (n : ℕ) (m : HashMap ℕ V)
      → All (λ (x : ℕ × V). x.0 < suc n) m
      → All (λ (x : ℕ × V). x.0 < n) (remove n m)
  unfolding remove
  remove-All_lt n [] h = tt
  remove-All_lt n ((i, w) ∷ m) (b, h) = ground (arith, remove-All_lt n m h)

  length-le-of_keys_lt :
      (n : ℕ) (m : HashMap ℕ V) → HasDistinctKeys m → All (λ (x : ℕ × V). x.0 < n) m → length m ≤ n
  length-le-of_keys_lt zero [] d h = omega arith
  length-le-of_keys_lt zero (x ∷ m) d h = absurd (omega arith)
  length-le-of_keys_lt (suc n) m d h = ground (
    arith,
    length-remove n m d,
    length-le-of_keys_lt n (remove n m) (remove-HasDistinctKeys n m d) (remove-All_lt n m h),
  )

  abbrev rename : (ℕ → ℕ) → HashMap ℕ V → HashMap ℕ V
  rename f [] = []
  rename f ((k, v) ∷ m) = (f k, v) ∷ rename f m

  length-rename : (f : ℕ → ℕ) (m : HashMap ℕ V) → length (rename f m) ≡ length m
  length-rename f [] = refl
  length-rename f (x ∷ m) = omega (arith, length-rename f m)

  -- The keys of `m` satisfy `P`, where `f` is injective, and `f` takes them below `n`.
  module _ (P : ℕ → Type 0) (f : ℕ → ℕ) (inj : (a b : ℕ) → P a → P b → f a ≡ f b → a ≡ b) where
    get-rename :
        (k : ℕ) (m : HashMap ℕ V)
        → P k
        → All (λ (x : ℕ × V). P x.0) m
        → get k m ≡ none
        → get (f k) (rename f m) ≡ none
    unfolding get
    get-rename k [] p h g = refl
    get-rename k ((i, w) ∷ m) p (q, h) g = ground (arith, inj i k q p, get-rename k m p h)

    rename-HasDistinctKeys :
        (m : HashMap ℕ V)
        → All (λ (x : ℕ × V). P x.0) m
        → HasDistinctKeys m
        → HasDistinctKeys (rename f m)
    rename-HasDistinctKeys [] h d = tt
    rename-HasDistinctKeys ((i, w) ∷ m) (p, h) (fresh, d) =
        (get-rename i m p h fresh, rename-HasDistinctKeys m h d)

    rename-All_lt :
        (n : ℕ) (m : HashMap ℕ V)
        → All (λ (x : ℕ × V). f x.0 < n) m
        → All (λ (x : ℕ × V). x.0 < n) (rename f m)
    rename-All_lt n [] h = tt
    rename-All_lt n ((i, w) ∷ m) (p, h) = (p, rename-All_lt n m h)

    pub length-le-of_rename_lt :
        (n : ℕ) (m : HashMap ℕ V)
        → All (λ (x : ℕ × V). P x.0) m
        → All (λ (x : ℕ × V). f x.0 < n) m
        → HasDistinctKeys m
        → length m ≤ n
    length-le-of_rename_lt n m h b d =
        rw (← length-rename f m)
          (length-le-of_keys_lt n (rename f m) (rename-HasDistinctKeys m h d) (rename-All_lt n m b))

-- ===== src/Senml/Validation/Laws/Checks.antt =====
-- What the loops and the guards of the validators come to.
use mathlib.Core.Path.{ap₂}
use coapum.Prelude.{
  ℤ, pos, negsuc, int_beq, nat_beq_iff, string_eq, ◌==◌, ◌≢◌, ◌≡◌, ◌↔◌, ap, unwrap_or, Bool-cases,
  refl, Bool, true, false, not, Option, Option-cases, none, some, List, [], ◌∷◌, String, All, any,
  Result, ok, ◌>>◌, ensure, inl, inr, arith,
}
use coapum.Senml.{Double, SenmlError, validation_error}
use coapum.Senml.Record.{SenmlRecord, passes}
use coapum.Senml.Record.Laws.{ensure-eq-ok_iff}
use coapum.Senml.Validation.{
  for_some, when, entry_of, entry_eq, check_entries, is_behind, check_ordering,
}

pub when-eq-ok_iff :
    (b : Bool) (m : Result SenmlError (Unit {0})) → (when b m ≡ ok tt) ↔ (b ≡ true → m ≡ ok tt)
when-eq-ok_iff true m = (λ h e. h, λ h. h refl)
when-eq-ok_iff false m = (λ h e. cc, λ h. refl)

pub for_some-eq-ok_iff :
    {A : Type 0} (f : A → Result SenmlError (Unit {0})) (o : Option A)
    → (for_some f o ≡ ok tt) ↔ ((a : A) → o ≡ some a → f a ≡ ok tt)
for_some-eq-ok_iff f none = (λ h a e. cc, λ h. refl)
for_some-eq-ok_iff f (some a) = (λ h b e. cc, λ h. h a refl)

-- A guard on a field that may be missing.
pub for_some-ensure_iff :
    {A : Type 0} (p : A → Bool) (o : Option A)
    → (for_some (λ a. ensure (p a) validation_error) o ≡ ok tt) ↔ (passes p o ≡ true)
for_some-ensure_iff p none = (λ h. refl, λ h. refl)
for_some-ensure_iff p (some a) = ensure-eq-ok_iff (p a) validation_error

pub not-true_iff : (b : Bool) → (not b ≡ true) ↔ (b ≡ false)
not-true_iff true = (λ h. cc, λ h. cc)
not-true_iff false = (λ h. refl, λ h. refl)

-- A guard that is followed by the rest of a loop.
pub ensure->>_iff :
    (b : Bool) (m : Result SenmlError (Unit {0}))
    → ((ensure (not b) validation_error >> m) ≡ ok tt) ↔ ((b ≡ false) × (m ≡ ok tt))
ensure->>_iff true m = (λ h. cc, λ (h, _). cc)
ensure->>_iff false m = (λ h. (refl, h), λ (_, h). h)

-- Entries of which no two pass the test of the code.
abbrev Apart : List (String × ℤ) → Type 0
Apart [] = Unit
Apart (e ∷ es) = All (λ j. entry_eq j e ≡ false) es × Apart es

-- Entries of which no two are the same.
abbrev pub Distinct : List (String × ℤ) → Type 0
Distinct [] = Unit
Distinct (e ∷ es) = All (λ j. j ≢ e) es × Distinct es

int_beq_iff : (a b : ℤ) → (int_beq a b ≡ true) ↔ (a ≡ b)
int_beq_iff (pos a) (pos b) = (λ h. ap pos ((nat_beq_iff a b).0 h), λ h. (nat_beq_iff a b).1 cc)
int_beq_iff (negsuc a) (negsuc b) =
    (λ h. ap negsuc ((nat_beq_iff a b).0 h), λ h. (nat_beq_iff a b).1 cc)
int_beq_iff (pos a) (negsuc b) = (λ h. cc, λ h. cc)
int_beq_iff (negsuc a) (pos b) = (λ h. cc, λ h. cc)

entry_eq_iff : (j e : String × ℤ) → (entry_eq j e ≡ true) ↔ (j ≡ e)
entry_eq_iff (n, t) (m, u) = (
  λ h.
      let same_name : n ≡ m = (string_eq.eq_exact n m).0 (ground (arith, h)) in
      let same_time : t ≡ u = (int_beq_iff t u).0 (ground (arith, h)) in
      ap₂ (λ a b. (a, b)) same_name same_time,
  λ h.
      let same_name : (n == m) ≡ true = (string_eq.eq_exact n m).1 (ap (λ p. p.0) h) in
      let same_time : int_beq t u ≡ true = (int_beq_iff t u).1 (ap (λ p. p.1) h) in
      rw (same_name, same_time) refl,
)

entry_eq-false_iff : (j e : String × ℤ) → (entry_eq j e ≡ false) ↔ (j ≢ e)
entry_eq-false_iff j e = elim (Bool-cases (entry_eq j e)) [
  | inl k ↦ (λ h. absurd cc, λ h. absurd (h ((entry_eq_iff j e).0 k)))
  | inr k ↦ (λ h p. let m = (entry_eq_iff j e).1 p in cc, λ h. k)
]

entries_differ_iff :
    (e : String × ℤ) (es : List (String × ℤ))
    → All (λ j. entry_eq j e ≡ false) es ↔ All (λ j. j ≢ e) es
entries_differ_iff e [] = (λ h. tt, λ h. tt)
entries_differ_iff e (j ∷ es) = (
  λ (h, k). ((entry_eq-false_iff j e).0 h, (entries_differ_iff e es).0 k),
  λ (h, k). ((entry_eq-false_iff j e).1 h, (entries_differ_iff e es).1 k),
)

Apart-Distinct_iff : (es : List (String × ℤ)) → Apart es ↔ Distinct es
Apart-Distinct_iff [] = (λ h. tt, λ h. tt)
Apart-Distinct_iff (e ∷ es) = (
  λ (h, k). ((entries_differ_iff e es).0 h, (Apart-Distinct_iff es).0 k),
  λ (h, k). ((entries_differ_iff e es).1 h, (Apart-Distinct_iff es).1 k),
)

-- Entries that have not been seen.
abbrev pub Unseen : List (String × ℤ) → List (String × ℤ) → Type 0
Unseen seen es = All (λ j. any (entry_eq j) seen ≡ false) es

split_entry :
    (e : String × ℤ) (seen es : List (String × ℤ))
    → Unseen (e ∷ seen) es ↔ (All (λ j. entry_eq j e ≡ false) es × Unseen seen es)
split_entry e seen [] = (λ h. (tt, tt), λ h. tt)
split_entry e seen (j ∷ es) = (
  λ (h, hs). let (k, ks) = (split_entry e seen es).0 hs in ((ground arith, k), (ground arith, ks)),
  λ ((h, hs), (k, ks)). (ground arith, (split_entry e seen es).1 (hs, ks)),
)

module _ (float : Double) where
  open float use {Num, sub, lt, zero, as_i64}

  -- The names and whole seconds of the records that have a name.
  abbrev pub entries : List (SenmlRecord Num) → List (String × ℤ)
  entries [] = []
  entries (r ∷ rs) = elim (r.n) [
    | none ↦ entries rs
    | some name ↦ (name, as_i64 (unwrap_or r.t zero)) ∷ entries rs
  ]

  check_entries-eq-ok_iff :
      (seen : List (String × ℤ)) (rs : List (SenmlRecord Num))
      → (check_entries float seen rs ≡ ok tt) ↔ (Unseen seen (entries rs) × Apart (entries rs))
  unfolding check_entries
  check_entries-eq-ok_iff seen [] = (λ h. (tt, tt), λ h. refl)
  check_entries-eq-ok_iff seen (r ∷ rs) = elim (Option-cases r.n) [
    | inl e ↦ rw e (check_entries-eq-ok_iff seen rs)
    | inr (name, e) ↦
        rw e (named name (check_entries-eq-ok_iff (entry_of float name r.t ∷ seen) rs))
  ]
    where
      named :
          (name : String)
          → (check_entries float (entry_of float name r.t ∷ seen) rs ≡ ok tt)
            ↔ (Unseen (entry_of float name r.t ∷ seen) (entries rs) × Apart (entries rs))
          → ((ensure (not (any (entry_eq (entry_of float name r.t)) seen)) validation_error
                >> check_entries float (entry_of float name r.t ∷ seen) rs)
              ≡ ok tt)
            ↔ (Unseen seen (entry_of float name r.t ∷ entries rs)
                × Apart (entry_of float name r.t ∷ entries rs))
      named name later =
          let entry : String × ℤ = entry_of float name r.t in
          let parts = split_entry entry seen (entries rs) in
          (
            λ h.
                let (fresh, rest) = (ensure->>_iff (any (entry_eq entry) seen) _).0 h in
                let (unseen, distinct) = later.0 rest in
                let (apart, old) = parts.0 unseen in ((fresh, old), (apart, distinct)),
            λ ((fresh, old), (apart, distinct)).
                (ensure->>_iff (any (entry_eq entry) seen) _).1
                  (fresh, later.1 (parts.1 (apart, old), distinct)),
          )

  Unseen-nil : (es : List (String × ℤ)) → Unseen [] es
  Unseen-nil [] = tt
  Unseen-nil (e ∷ es) = (refl, Unseen-nil es)

  -- The loop finds no duplicate exactly if no two records have one name and one second.
  pub check_entries-nil_iff :
      (rs : List (SenmlRecord Num)) → (check_entries float [] rs ≡ ok tt) ↔ Distinct (entries rs)
  check_entries-nil_iff rs = (
    λ h. (Apart-Distinct_iff (entries rs)).0 ((check_entries-eq-ok_iff [] rs).0 h).1,
    λ d.
        (check_entries-eq-ok_iff [] rs).1
          (Unseen-nil (entries rs), (Apart-Distinct_iff (entries rs)).1 d),
  )

  abbrev pub times : List (SenmlRecord Num) → List Num
  times [] = []
  times (r ∷ rs) = elim (r.t) [ none ↦ times rs | some time ↦ time ∷ times rs ]

  -- No time is behind the one before it by more than the drift.
  abbrev pub IsOrdered : Num → List Num → Type 0
  IsOrdered drift [] = Unit
  IsOrdered drift (x ∷ []) = Unit
  IsOrdered drift (x ∷ y ∷ xs) = (lt drift (sub x y) ≡ false) × IsOrdered drift (y ∷ xs)

  -- The times after the last one.
  abbrev after : Option Num → List Num → List Num
  after none xs = xs
  after (some x) xs = x ∷ xs

  check_ordering-eq-ok_iff :
      (drift : Num) (last : Option Num) (rs : List (SenmlRecord Num))
      → (check_ordering float drift last rs ≡ ok tt) ↔ IsOrdered drift (after last (times rs))
  unfolding check_ordering
  check_ordering-eq-ok_iff drift none [] = (λ h. tt, λ h. refl)
  check_ordering-eq-ok_iff drift (some x) [] = (λ h. tt, λ h. refl)
  check_ordering-eq-ok_iff drift last (r ∷ rs) = elim (Option-cases r.t) [
    | inl e ↦ rw e (check_ordering-eq-ok_iff drift last rs)
    | inr (time, e) ↦ rw e (timed last time (check_ordering-eq-ok_iff drift (some time) rs))
  ]
    where
      timed :
          (last : Option Num) (time : Num)
          → (check_ordering float drift (some time) rs ≡ ok tt) ↔ IsOrdered drift (time ∷ times rs)
          → ((ensure (not (is_behind float drift last time)) validation_error
                >> check_ordering float drift (some time) rs)
              ≡ ok tt)
            ↔ IsOrdered drift (after last (time ∷ times rs))
      timed none time later = later
      timed (some x) time later = (
        λ h.
            let (near, rest) = (ensure->>_iff (lt drift (sub x time)) _).0 h in
            (near, later.0 rest),
        λ (near, rest). (ensure->>_iff (lt drift (sub x time)) _).1 (near, later.1 rest),
      )

  -- The loop accepts the times of the records exactly if none is behind by more than the drift.
  pub check_ordering-none_iff :
      (drift : Num) (rs : List (SenmlRecord Num))
      → (check_ordering float drift none rs ≡ ok tt) ↔ IsOrdered drift (times rs)
  check_ordering-none_iff drift rs = check_ordering-eq-ok_iff drift none rs

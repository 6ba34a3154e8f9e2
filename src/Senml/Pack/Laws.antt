-- ===== src/Senml/Pack/Laws.antt =====
-- Which packs are valid.
use coapum.Prelude.{
  ◌≡◌, ◌↔◌, refl, true, false, List, [], ◌∷◌, All, is_empty, Result, ok, err, for_each,
}
use coapum.Senml.{Double, SenmlError}
use coapum.Senml.Record.{SenmlRecord, passes}
use coapum.Senml.Record.Laws.{
  >>-eq-ok_iff, ensured_iff, IsValid, validate-eq-ok_iff as record_valid_iff,
}
use coapum.Senml.Pack.{SenmlPack, as_validation, base_values, validate, validate_each}

pub for_each-eq-ok_iff :
    {A : Type 0} (f : A → Result SenmlError (Unit {0})) (xs : List A)
    → (for_each f xs ≡ ok tt) ↔ All (λ x. f x ≡ ok tt) xs
for_each-eq-ok_iff f [] = (λ h. tt, λ h. refl)
for_each-eq-ok_iff f (x ∷ xs) = (
  λ h.
      let (h1, h2) = (>>-eq-ok_iff (f x) (for_each f xs)).0 h in
      (h1, (for_each-eq-ok_iff f xs).0 h2),
  λ (h1, h2). (>>-eq-ok_iff (f x) (for_each f xs)).1 (h1, (for_each-eq-ok_iff f xs).1 h2),
)

pub All-map :
    {A : Type 0} {P Q : A → Type 0} (f : (x : A) → P x → Q x) (xs : List A) → All P xs → All Q xs
All-map f [] h = tt
All-map f (x ∷ xs) (p, h) = (f x p, All-map f xs h)

pub as_validation-eq-ok_iff :
    (m : Result SenmlError (Unit {0})) → (as_validation m ≡ ok tt) ↔ (m ≡ ok tt)
as_validation-eq-ok_iff (ok tt) = (λ h. refl, λ h. refl)
as_validation-eq-ok_iff (err e) = (λ h. cc, λ h. cc)

module _ (float : Double) where
  open float use {Num, is_finite}

  -- What `validate` asks of a pack: it has a record, every record is valid, and the base values of
  -- the first one are finite.
  pub record IsValidPack (p : SenmlPack Num) : Type 0 where
    pub nonempty : is_empty p.records ≡ false
    pub records_ok : All (IsValid float) p.records
    pub base_time_ok : passes is_finite (base_values p).bt ≡ true
    pub base_value_ok : passes is_finite (base_values p).bv ≡ true
    pub base_sum_ok : passes is_finite (base_values p).bs ≡ true

  each_valid_iff :
      (rs : List (SenmlRecord Num))
      → (for_each (validate_each float) rs ≡ ok tt) ↔ All (IsValid float) rs
  each_valid_iff rs = (
    λ h.
        All-map (λ r e. (record_valid_iff float r).0 ((as_validation-eq-ok_iff _).0 e)) rs
          ((for_each-eq-ok_iff (validate_each float) rs).0 h),
    λ h.
        (for_each-eq-ok_iff (validate_each float) rs).1
          (All-map (λ r v. (as_validation-eq-ok_iff _).1 ((record_valid_iff float r).1 v)) rs h),
  )

  -- `validate` accepts a pack exactly if it has a record, every record is valid, and the base values
  -- of the first one are finite.
  pub validate-eq-ok_iff : (p : SenmlPack Num) → (validate float p ≡ ok tt) ↔ IsValidPack p
  unfolding validate
  validate-eq-ok_iff p =
      elim (p.records)
        as (λ rs.
          (validate float (record p { records = rs }) ≡ ok tt)
          ↔ IsValidPack (record p { records = rs })) [
            | [] ↦ (λ h. cc, λ v. cc)
            | r ∷ rs ↦ (
              λ h.
                  let (h3, base_sum_ok) = (ensured_iff _ _ _).0 h in
                  let (h2, base_value_ok) = (ensured_iff _ _ _).0 h3 in
                  let (h1, base_time_ok) = (ensured_iff _ _ _).0 h2 in
                  record {
                    nonempty = refl;
                    records_ok = (each_valid_iff (r ∷ rs)).0 h1;
                    base_time_ok = base_time_ok;
                    base_value_ok = base_value_ok;
                    base_sum_ok = base_sum_ok;
                  },
              λ v. (ensured_iff _ _ _).1 (
                (ensured_iff _ _ _).1 (
                  (ensured_iff _ _ _).1 ((each_valid_iff (r ∷ rs)).1 v.records_ok, v.base_time_ok),
                  v.base_value_ok,
                ),
                v.base_sum_ok,
              ),
            )
          ]

-- ===== src/Senml/Validation/Units.antt =====
-- The units that are suggested.
use mathlib.Core.Path.{subst}
use coapum.Prelude.{
  ◌≡◌, Bool-cases, true, inl, inr, some, List, [], ◌∷◌, String, All, any, ◌==◌, string_eq, refl,
}
use coapum.Senml.Validation.{
  is_valid_unit, unit_corrections, find_correction, suggest_unit_correction,
}

find_correction-All :
    (P : String → Type 0) (unit : String) (arms : List (List String × String)) (found : String)
    → All (λ (arm : List String × String). P arm.1) arms
    → find_correction unit arms ≡ some found
    → P found
unfolding find_correction
find_correction-All P unit [] found h e = absurd cc
find_correction-All P unit ((patterns, correction) ∷ arms) found (p, h) e =
    elim (Bool-cases (any (λ pat. unit == pat) patterns)) [
      | inl k ↦ let same : correction ≡ found = cc in subst P same p
      | inr k ↦ find_correction-All P unit arms found h cc
    ]

-- Every unit that is suggested is a valid one, whatever the text.
pub suggest_unit_correction-is_valid_unit :
    (to_lowercase : String → String) (unit suggestion : String)
    → suggest_unit_correction to_lowercase unit ≡ some suggestion
    → is_valid_unit suggestion ≡ true
unfolding suggest_unit_correction is_valid_unit
suggest_unit_correction-is_valid_unit to_lowercase unit suggestion =
    find_correction-All (λ s. is_valid_unit s ≡ true) (to_lowercase unit) unit_corrections
      suggestion (refl, (refl, (refl, (refl, (refl, (refl, (refl, (refl, (refl, tt)))))))))

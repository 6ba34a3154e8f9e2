-- ===== src/Senml/Validation/Laws/Names.antt =====
-- Which names pass where strict names are asked for.
use coapum.Prelude.{
  ℕ, ◌≤◌, ◌≡◌, ◌≢◌, ◌↔◌, ◌⊎◌, inl, inr, refl, Bool, Bool-cases, false, ◌||◌, [], ◌∷◌, String, All,
  any, is_empty, leb, ok, arith,
}
use coapum.Str.{is_control, utf8_length}
use coapum.Senml.Record.Laws.{>>-eq-ok_iff, ensure-eq-ok_iff}
use coapum.Senml.Validation.{has_char, validate_name}
use coapum.Senml.Validation.Laws.Checks.{not-true_iff}

-- A character that is neither a space nor a control character.
abbrev pub IsNameChar : ℕ → Type 0
IsNameChar c = (0x21 ≤ c) × ((c ≤ 0x7e) ⊎ (0xa0 ≤ c))

-- A name of 1 to 256 bytes in UTF-8 that has only those characters.
abbrev pub IsName : String → Type 0
IsName name = (name ≢ []) × All IsNameChar name × (utf8_length name ≤ 256)

is_spaced : String → Bool
is_spaced name = has_char b' ' name || (has_char 9 name || has_char 10 name)

char_iff : (c : ℕ) → ((is_spaced (c ∷ []) ≡ false) × (is_control c ≡ false)) ↔ IsNameChar c
unfolding is_spaced
char_iff c = (
  λ (h, k). (
    ground (arith, h, k),
    elim (Bool-cases (leb c 0x7e)) [
      | inl e ↦ inl (ground (arith, e))
      | inr e ↦ inr (ground (arith, e, h, k))
    ],
  ),
  λ (h, k). (ground (arith, h, k), ground (arith, h, k)),
)

is_spaced-cons :
    (c : ℕ) (s : String)
    → (is_spaced (c ∷ s) ≡ false) ↔ ((is_spaced (c ∷ []) ≡ false) × (is_spaced s ≡ false))
unfolding is_spaced
is_spaced-cons c s = ground arith

clean_iff :
    (name : String)
    → ((is_spaced name ≡ false) × (any is_control name ≡ false)) ↔ All IsNameChar name
clean_iff [] = (λ h. tt, λ h. (unfold is_spaced in refl, refl))
clean_iff (c ∷ name) = (
  λ (h, k).
      let (h1, h2) = (is_spaced-cons c name).0 h in
      ((char_iff c).0 (h1, ground (arith, k)), (clean_iff name).0 (h2, ground (arith, k))),
  λ (h, k).
      let (h1, h2) = (char_iff c).1 h in
      let (k1, k2) = (clean_iff name).1 k in
      ((is_spaced-cons c name).1 (h1, k1), ground (arith, h2, k2)),
)

not_empty_iff : (name : String) → (is_empty name ≡ false) ↔ (name ≢ [])
not_empty_iff [] = (λ h. cc, λ h. absurd (h refl))
not_empty_iff (c ∷ name) = (λ h e. cc, λ h. refl)

pub validate_name-eq-ok_iff : (name : String) → (validate_name name ≡ ok tt) ↔ IsName name
unfolding validate_name is_spaced
validate_name-eq-ok_iff name = (
  λ h.
      let (h3, short) = (>>-eq-ok_iff _ _).0 h in
      let (h2, controls) = (>>-eq-ok_iff _ _).0 h3 in
      let (full, spaces) = (>>-eq-ok_iff _ _).0 h2 in
      (
        (not_empty_iff name).0 ((not-true_iff _).0 ((ensure-eq-ok_iff _ _).0 full)),
        (clean_iff name).0 (
          (not-true_iff _).0 ((ensure-eq-ok_iff _ _).0 spaces),
          (not-true_iff _).0 ((ensure-eq-ok_iff _ _).0 controls),
        ),
        ground (arith, (ensure-eq-ok_iff _ _).0 short),
      ),
  λ (full, clean, short).
      let (spaces, controls) = (clean_iff name).1 clean in
      (>>-eq-ok_iff _ _).1 (
        (>>-eq-ok_iff _ _).1 (
          (>>-eq-ok_iff _ _).1 (
            (ensure-eq-ok_iff _ _).1 ((not-true_iff _).1 ((not_empty_iff name).1 full)),
            (ensure-eq-ok_iff _ _).1 ((not-true_iff _).1 spaces),
          ),
          (ensure-eq-ok_iff _ _).1 ((not-true_iff _).1 controls),
        ),
        (ensure-eq-ok_iff _ _).1 (ground (arith, short)),
      ),
)

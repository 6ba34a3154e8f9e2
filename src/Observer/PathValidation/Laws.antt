-- ===== src/Observer/PathValidation/Laws.antt =====
-- Which paths the server accepts for observers, and in which form it keeps them.
use coapum.Prelude.{
  ℕ, ◌≤◌, ◌≡◌, ◌≢◌, ◌↔◌, ◌⊎◌, All, refl, ap, ◌∙◌, sym, Bool, true, false, ◌||◌, List, [], ◌∷◌,
  nat_beq, all, length, String, codes, arith, Bool-cases, inl, inr,
}
use coapum.Str.{slash, contains, starts_with, components, join}
use coapum.Str.Split.{components-IsComponent, components-absolute, absolute, all-components}
use coapum.Observer.PathValidation.{ok, is_safe, normalized, validate_observer_path, max_path_depth}

-- The characters that may stand in an accepted path.
abbrev is_allowed : ℕ → Bool
is_allowed c = nat_beq c slash || is_safe c

-- A pattern with a character that fails the test is not contained in a text whose characters pass.
module _ (p : ℕ → Bool) where
  starts_with-all :
      (pat s : String) → all p pat ≡ false → all p s ≡ true → starts_with pat s ≡ false
  unfolding starts_with
  starts_with-all [] s h k = cc
  starts_with-all (c ∷ pat) [] h k = refl
  starts_with-all (c ∷ pat) (x ∷ s) h k = elim (Bool-cases (nat_beq c x)) [
    | inl e ↦
        let same : p c ≡ p x = ap p (ground arith) in
        rw e (starts_with-all pat s (ground (arith, same)) (ground arith))
    | inr e ↦ rw e
  ]

  contains-all : (pat s : String) → all p pat ≡ false → all p s ≡ true → contains pat s ≡ false
  unfolding contains
  contains-all pat [] h k = starts_with-all pat [] h k
  contains-all pat (x ∷ s) h k =
      ground (arith, starts_with-all pat (x ∷ s) h k, contains-all pat s h)

normalized-eq-absolute : (ws : List String) → normalized ws ≡ absolute ws
unfolding normalized absolute join
normalized-eq-absolute [] = refl
normalized-eq-absolute (w ∷ ws) = refl

components-normalized :
    (path : String) → components (normalized (components path)) ≡ components path
components-normalized path =
    ap components (normalized-eq-absolute (components path))
    ∙ components-absolute (components path) (components-IsComponent path)

-- The same with the test of the characters.
accepted_iff :
    (path q : String)
    → (validate_observer_path path ≡ ok q) ↔ (
        (path ≢ [])
        × (all is_allowed path ≡ true)
        × (length (components path) ≤ max_path_depth)
        × (q ≡ absolute (components path)))
unfolding validate_observer_path
accepted_iff path q =
    let chars = all-components is_safe path in
    let form = normalized-eq-absolute (components path) in
    (
      λ e. (ground arith, ground (arith, chars), ground arith, ground (arith, form)),
      λ h.
          rw
            (
              contains-all is_allowed (codes "..") path refl h.1,
              contains-all is_allowed (codes "./") path refl h.1,
              contains-all is_allowed (codes "\\") path refl h.1,
              chars ∙ h.1,
            )
            (ground (arith, form)),
    )

-- An ASCII letter or digit, `_`, `-` or a slash.
abbrev pub IsAllowed : ℕ → Type 0
IsAllowed c =
    (48 ≤ c) × (c ≤ 57)
    ⊎ (65 ≤ c) × (c ≤ 90)
    ⊎ (97 ≤ c) × (c ≤ 122)
    ⊎ (c ≡ 95)
    ⊎ (c ≡ 45)
    ⊎ (c ≡ 47)

is_allowed_iff : (c : ℕ) → (is_allowed c ≡ true) ↔ IsAllowed c
is_allowed_iff c = ground arith

all-is_allowed_iff : (path : String) → (all is_allowed path ≡ true) ↔ All IsAllowed path
all-is_allowed_iff [] = (λ e. tt, λ h. refl)
all-is_allowed_iff (c ∷ path) = (
  λ e. ((is_allowed_iff c).0 (ground (arith, e)), (all-is_allowed_iff path).0 (ground (arith, e))),
  λ (h, k). rw ((is_allowed_iff c).1 h, (all-is_allowed_iff path).1 k) refl,
)

-- A path is accepted exactly when it is not empty, has only ASCII letters and digits, `_`, `-` and
-- slashes, and has at most ten components; it is then kept as its components, each behind a slash.
pub validate_observer_path-eq-ok_iff :
    (path q : String)
    → (validate_observer_path path ≡ ok q) ↔ (
        (path ≢ [])
        × All IsAllowed path
        × (length (components path) ≤ 10)
        × (q ≡ absolute (components path)))
validate_observer_path-eq-ok_iff path q = (
  λ e.
      let (full, chars, deep, form) = (accepted_iff path q).0 e in
      (full, (all-is_allowed_iff path).0 chars, deep, form),
  λ (full, chars, deep, form).
      (accepted_iff path q).1 (full, (all-is_allowed_iff path).1 chars, deep, form),
)

-- A path that was accepted is accepted again in the form that it is kept in, which stays as it is,
-- and it has the same components.
pub validate_observer_path_idempotent :
    (path q : String)
    → validate_observer_path path ≡ ok q
    → (validate_observer_path q ≡ ok q) × (components q ≡ components path)
validate_observer_path_idempotent path q e =
    let (nonempty, chars, deep, form) = (accepted_iff path q).0 e in
    let same =
      ap components form ∙ components-absolute (components path) (components-IsComponent path) in
    let kept =
      sym (all-components is_safe q)
      ∙ ap (all (all is_safe)) same
      ∙ all-components is_safe path
      ∙ chars in
    (
      (accepted_iff q q).1
          (rw form (unfold absolute in cc), kept, rw same deep, form ∙ sym (ap absolute same)),
      same,
    )

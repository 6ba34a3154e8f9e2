-- ===== src/Observer/PathValidation.antt =====
-- `validate_observer_path` of src/observer/mod.rs
pub mod Laws
use coapum.Prelude.{
  ℕ, Bool, ◌||◌, ◌≡◌, refl, List, [], ◌∷◌, ◌++◌, nat_beq, ltb, if◌then◌else◌, is_empty, all, length,
  String, codes,
}
use coapum.Str.{slash, contains, components, join, is_ascii_alphanumeric}

pub data PathValidationError : Type 0 where
  traversal_attempt path_too_deep invalid_characters empty_path : PathValidationError

pub data Validation : Type 0 where
  ok : String → Validation
  err : PathValidationError → Validation

abbrev pub max_path_depth : ℕ
max_path_depth = 10

abbrev pub is_safe : ℕ → Bool
is_safe c = is_ascii_alphanumeric c || (nat_beq c b'_' || nat_beq c b'-')

unfoldable pub normalized : List String → String
normalized comps = if is_empty comps then slash ∷ [] else slash ∷ join (slash ∷ []) comps

unfoldable pub validate_observer_path : String → Validation
unfolding normalized
validate_observer_path path =
    if is_empty path
    then err empty_path
    else if contains (codes "..") path || (contains (codes "./") path || contains (codes "\\") path)
    then err traversal_attempt
    else (let comps = components path in
        if ltb max_path_depth (length comps)
        then err path_too_deep
        else if all (all is_safe) comps
        then ok (normalized comps)
        else err invalid_characters)

accepted : validate_observer_path (codes "sensors//temp/") ≡ ok (codes "/sensors/temp")
unfolding validate_observer_path contains components join
accepted = refl

rejected : validate_observer_path (codes "../etc/passwd") ≡ err traversal_attempt
unfolding validate_observer_path contains components join
rejected = refl

-- ===== src/Samples/Pointer.antt =====
-- A JSON pointer that follows the members of objects, as a sample of the parameter.
use coapum.Prelude.{
  ◌≡◌, refl, Option, none, some, [], ◌∷◌, ◌++◌, if◌then◌else◌, nat_beq, String, arith, ℕ,
}
use coapum.Json.{Value, object, Map, get}
use coapum.Str.{slash, split}
use coapum.Str.Split.{NoSlash, split_of_NoSlash, split-append}
use coapum.Observer.Pointer.{JsonPointer, IsToken}
use coapum.Observer.Merge.Laws.{at_path}

unfoldable pub follow : {N : Type 0} → String → Value N → Option (Value N)
follow [] v = some v
follow (c ∷ s) v = if nat_beq c slash then at_path (split slash s) v else none

NoSlash-of_IsToken : (k : String) → IsToken k → NoSlash k
NoSlash-of_IsToken [] t = tt
NoSlash-of_IsToken (c ∷ k) ((n, _), t) = (n, NoSlash-of_IsToken k t)

module _ {N : Type 0} where
  pub follow-nil : (v : Value N) → follow [] v ≡ some v
  unfolding follow
  follow-nil v = refl

  pub follow-last : (k : String) (m : Map N) → IsToken k → follow (slash ∷ k) (object m) ≡ get k m
  unfolding follow at_path
  follow-last k m t = rw (split_of_NoSlash k (NoSlash-of_IsToken k t)) (ground arith)

  pub follow-member :
      (k rest : String) (m : Map N)
      → IsToken k
      → follow (slash ∷ (k ++ slash ∷ rest)) (object m)
        ≡ elim (get k m) [ none ↦ none | some v ↦ follow (slash ∷ rest) v ]
  unfolding follow at_path
  follow-member k rest m t = rw (split-append k rest (NoSlash-of_IsToken k t)) refl

abbrev pub objects_only : JsonPointer ℕ
objects_only = record {
  pointer = follow;
  pointer-nil = follow-nil;
  pointer-last = follow-last;
  pointer-member = follow-member;
}

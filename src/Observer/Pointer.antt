-- ===== src/Observer/Pointer.antt =====
-- `Value::pointer` of serde_json, a parameter of the model, with the laws of RFC 6901 that the
-- observers rely on.
use coapum.Prelude.{
  ◌≡◌, ◌≢◌, Option, none, some, List, [], ◌∷◌, ◌++◌, String, All, inl, inr, ◌∙◌, Option-cases,
  arith,
}
use mathlib.Core.Option.{none-ne-some}
use coapum.Json.{Value, object, Map, get}
use coapum.Str.{slash, join}
use coapum.Str.Split.{absolute}
use coapum.Observer.Merge.Laws.{at_path}

-- A reference token that stands for itself: it has no slash, and no `~` to escape one.
abbrev pub IsToken : String → Type 0
IsToken = All (λ c. (c ≢ slash) × (c ≢ b'~'))

pub record JsonPointer (N : Type 0) : Type 0 where
  pub pointer : String → Value N → Option (Value N)
  -- The empty pointer is the whole document.
  pub pointer-nil : (v : Value N) → pointer [] v ≡ some v
  -- The last token names a member of an object, and so does a token before another slash.
  pub pointer-last : (k : String) (m : Map N) → IsToken k → pointer (slash ∷ k) (object m) ≡ get k m
  pub pointer-member :
      (k rest : String) (m : Map N)
      → IsToken k
      → pointer (slash ∷ (k ++ slash ∷ rest)) (object m)
        ≡ elim (get k m) [ none ↦ none | some v ↦ pointer (slash ∷ rest) v ]

module _ {N : Type 0} (json : JsonPointer N) where
  open json use {pointer, pointer-last, pointer-member}

  -- Where the components lead through objects to a value, the pointer made of them does too.
  pub pointer-absolute :
      (c : String) (cs : List String) (doc v : Value N)
      → All IsToken (c ∷ cs)
      → at_path (c ∷ cs) doc ≡ some v
      → pointer (absolute (c ∷ cs)) doc ≡ some v
  unfolding at_path absolute join
  pointer-absolute c [] (object m) v (t, ts) e = pointer-last c m t ∙ ground arith
  pointer-absolute c (d ∷ cs) (object m) v (t, ts) e = elim (Option-cases (get c m)) [
    | inl missing ↦ absurd (none-ne-some v (rw (missing, at_path) at e))
    | inr (w, found) ↦
        pointer-member c (join (slash ∷ []) (d ∷ cs)) m t
        ∙ rw found (pointer-absolute d cs w v ts (rw (found, at_path) at e))
  ]
  pointer-absolute c cs _ v t e = cc

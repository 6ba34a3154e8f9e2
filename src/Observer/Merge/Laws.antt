-- ===== src/Observer/Merge/Laws.antt =====
-- What a write at a path leaves to be read, at that path and elsewhere.
use coapum.Prelude.{
  ◌≡◌, ◌≢◌, refl, Option, none, some, List, [], ◌∷◌, String, string_eq, arith, list_beq_iff,
  Option-cases, inl, inr, ◌⊎◌,
}
use coapum.Json.{Value, object, get}
use coapum.Json.Laws.{get-insert}
use coapum.Observer.Merge.{nest, merge_json}

-- Neither path leads through the other.
abbrev pub Diverge : List String → List String → Type 0
Diverge [] qs = ⊥
Diverge (p ∷ ps) [] = ⊥
Diverge (p ∷ ps) (q ∷ qs) = (p ≢ q) ⊎ ((p ≡ q) × Diverge ps qs)

module _ {N : Type 0} where
  -- The value that the components lead to, through members of objects only.
  unfoldable pub at_path : List String → Value N → Option (Value N)
  at_path [] v = some v
  at_path (c ∷ cs) (object m) = elim (get c m) [ none ↦ none | some v ↦ at_path cs v ]
  at_path (c ∷ cs) _ = none

  -- What a write of `v` makes of the value that was there.
  abbrev pub merged : Option (Value N) → Value N → Value N
  merged none v = v
  merged (some old) v = merge_json old v

  at_path-nest : (cs : List String) (v : Value N) → at_path cs (nest cs v) ≡ some v
  unfolding at_path nest get
  at_path-nest [] v = refl
  at_path-nest (c ∷ cs) v = ground (arith, list_beq_iff c c, at_path-nest cs v)

  at_path-nest-Diverge :
      (ps qs : List String) (v : Value N) → Diverge ps qs → at_path qs (nest ps v) ≡ none
  unfolding at_path nest get
  at_path-nest-Diverge [] qs v d = absurd d
  at_path-nest-Diverge (p ∷ ps) [] v d = absurd d
  at_path-nest-Diverge (p ∷ ps) (q ∷ qs) v (inl ne) = ground (arith, list_beq_iff p q)
  at_path-nest-Diverge (p ∷ ps) (q ∷ qs) v (inr (e, d)) =
      ground (arith, list_beq_iff p q, at_path-nest-Diverge ps qs v d)

  -- After a write the path leads to the value that was there merged with the one that was written.
  pub at_path-merge_json :
      (cs : List String) (v cur : Value N)
      → at_path cs (merge_json cur (nest cs v)) ≡ some (merged (at_path cs cur) v)
  unfolding at_path nest merge_json
  at_path-merge_json [] v cur = refl
  at_path-merge_json (c ∷ cs) v (object m) = elim (Option-cases (get c m)) [
    | inl e ↦ ground (arith, e, list_beq_iff c c, at_path-nest cs v, get-insert c c (nest cs v) m)
    | inr (w, e) ↦ ground (
      arith,
      e,
      list_beq_iff c c,
      at_path-merge_json cs v w,
      get-insert c c (merge_json w (nest cs v)) m,
    )
  ]
  at_path-merge_json (c ∷ cs) v cur = at_path-nest (c ∷ cs) v

  -- A path that diverges from the written one leads to what it led to before.
  pub at_path-merge_json-Diverge :
      (ps qs : List String) (v cur : Value N)
      → Diverge ps qs
      → at_path qs (merge_json cur (nest ps v)) ≡ at_path qs cur
  unfolding at_path nest merge_json
  at_path-merge_json-Diverge [] qs v cur d = absurd d
  at_path-merge_json-Diverge (p ∷ ps) [] v cur d = absurd d
  at_path-merge_json-Diverge (p ∷ ps) (q ∷ qs) v (object m) (inl ne) = ground (
    arith,
    list_beq_iff p q,
    get-insert p q (elim (get p m) [ none ↦ nest ps v | some old ↦ merge_json old (nest ps v) ]) m,
  )
  at_path-merge_json-Diverge (p ∷ ps) (q ∷ qs) v (object m) (inr (same, d)) =
      elim (Option-cases (get p m)) [
        | inl e ↦ ground (
          arith,
          e,
          same,
          list_beq_iff p q,
          at_path-nest-Diverge ps qs v d,
          get-insert p q (nest ps v) m,
        )
        | inr (w, e) ↦ ground (
          arith,
          e,
          same,
          list_beq_iff p q,
          at_path-merge_json-Diverge ps qs v w d,
          get-insert p q (merge_json w (nest ps v)) m,
        )
      ]
  at_path-merge_json-Diverge (p ∷ ps) (q ∷ qs) v cur d = at_path-nest-Diverge (p ∷ ps) (q ∷ qs) v d

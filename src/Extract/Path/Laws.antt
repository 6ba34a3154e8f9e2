-- ===== src/Extract/Path/Laws.antt =====
-- What the extractors of path parameters give.
use mathlib.Core.Path.{ap₂, subst}
use mathlib.Core.List.{append_assoc}
use coapum.Prelude.{
  ℕ, ◌≡◌, ◌⊎◌, inl, inr, refl, sym, ap, ◌∙◌, Bool-cases, true, false, Option, Option-cases, none,
  some, List, [], ◌∷◌, ◌++◌, map, String, codes, All, length, nat_beq, nat_beq_iff, ok,
  if◌then◌else◌, ◌==◌, string_eq, arith,
}
use coapum.Str.{slash, strip_prefix, components}
use coapum.Extract.Path.{
  without_slash, after_first, or_next, wildcard_rest, extract_wildcard_path, from_request, is_param,
  param_name, push_param, match_segments, extract_path_params,
}

-- The segments of a path: those of the pattern, with the values of the parameters in their places.
abbrev pub filled : List String → List (String × String) → List String
filled [] params = []
filled (seg ∷ segs) [] = if is_param seg then [] else seg ∷ filled segs []
filled (seg ∷ segs) ((name, x) ∷ params) =
    if is_param seg then x ∷ filled segs params else seg ∷ filled segs ((name, x) ∷ params)

abbrev pub names : List (String × String) → List String
names params = map (λ (param : String × String). param.0) params

-- The names of the parameters of a pattern.
abbrev pub param_names : List String → List String
param_names [] = []
param_names (seg ∷ segs) =
    if is_param seg then param_name seg ∷ param_names segs else param_names segs

-- A match of segments: the parameters fill the pattern, and have the pattern's names.
abbrev Fills : List String → List String → Option (List (String × String)) → Type 0
Fills path_segs pattern_segs none = Unit
Fills path_segs pattern_segs (some params) =
    (filled pattern_segs params ≡ path_segs) × (names params ≡ param_names pattern_segs)

match_segments-Fills :
    (path_segs pattern_segs : List String)
    → length path_segs ≡ length pattern_segs
    → Fills path_segs pattern_segs (match_segments path_segs pattern_segs)
unfolding match_segments
match_segments-Fills [] [] same = (refl, refl)
match_segments-Fills [] (seg ∷ segs) same = absurd (omega (arith, same))
match_segments-Fills (x ∷ xs) [] same = absurd (omega (arith, same))
match_segments-Fills (x ∷ xs) (seg ∷ segs) same =
    step (match_segments xs segs) (match_segments-Fills xs segs (omega (arith, same)))
      (Bool-cases (is_param seg)) (Bool-cases (x == seg))
  where
    same_text : (x == seg) ≡ true → seg ≡ x
    same_text q = sym ((string_eq.eq_exact x seg).0 q)

    step :
        (rest : Option (List (String × String)))
        → Fills xs segs rest
        → (is_param seg ≡ true) ⊎ (is_param seg ≡ false)
        → ((x == seg) ≡ true) ⊎ ((x == seg) ≡ false)
        → Fills (x ∷ xs) (seg ∷ segs) (
            if is_param seg
            then push_param (param_name seg, x) rest
            else if x == seg
            then rest
            else none)
    step none h (inl p) q = rw p tt
    step none h (inr p) (inl q) = rw (p, q) tt
    step none h (inr p) (inr q) = rw (p, q) tt
    step (some []) (h, k) (inl p) q =
        rw p (rw p (ap (λ l. x ∷ l) h), rw p (ap (λ l. param_name seg ∷ l) k))
    step (some []) (h, k) (inr p) (inl q) = rw (p, q) (rw p (ap₂ ◌∷◌ (same_text q) h), rw p k)
    step (some []) h (inr p) (inr q) = rw (p, q) tt
    step (some (param ∷ params)) (h, k) (inl p) q =
        rw p (rw p (ap (λ l. x ∷ l) h), rw p (ap (λ l. param_name seg ∷ l) k))
    step (some (param ∷ params)) (h, k) (inr p) (inl q) =
        rw (p, q) (rw p (ap₂ ◌∷◌ (same_text q) h), rw p k)
    step (some (param ∷ params)) h (inr p) (inr q) = rw (p, q) tt

-- What `extract_path_params` finds: the parameters put into the pattern give the segments of the
-- path, and they have the names of the pattern's parameters, in their order.
pub extract_path_params_lem :
    (path pattern' : String) (params : List (String × String))
    → extract_path_params path pattern' ≡ some params
    → (filled (components pattern') params ≡ components path)
      × (names params ≡ param_names (components pattern'))
unfolding extract_path_params
extract_path_params_lem path pattern' params e =
    elim (Bool-cases (nat_beq (length (components path)) (length (components pattern')))) [
      | inl k ↦
          subst (Fills (components path) (components pattern')) (rw (extract_path_params, k) at e) (
            match_segments-Fills (components path) (components pattern')
              ((nat_beq_iff (length (components path)) (length (components pattern'))).0 k))
      | inr k ↦ absurd cc
    ]

strip_prefix_lem : (pat s rest : String) → strip_prefix pat s ≡ some rest → pat ++ rest ≡ s
unfolding strip_prefix
strip_prefix_lem [] s rest e = cc
strip_prefix_lem (c ∷ pat) [] rest e = absurd cc
strip_prefix_lem (c ∷ pat) (x ∷ s) rest e = elim (Bool-cases (nat_beq c x)) [
  | inl k ↦
      ap₂ ◌∷◌ ((nat_beq_iff c x).0 k) (strip_prefix_lem pat s rest (rw (strip_prefix, k) at e))
  | inr k ↦ absurd cc
]

after_first-join :
    (first rest : String)
    → All (λ c. nat_beq c slash ≡ false) first
    → after_first slash (first ++ (slash ∷ rest)) ≡ some rest
unfolding after_first
after_first-join [] rest h = refl
after_first-join (c ∷ first) rest (e, h) = rw e (after_first-join first rest h)

-- A prefix that ends at its first slash gives what is after that slash.
strip_or_next :
    (pat s rest : String) (o : Option String)
    → All (λ c. nat_beq c slash ≡ false) pat
    → after_first slash s ≡ some rest
    → o ≡ some rest
    → or_next (strip_prefix (pat ++ (slash ∷ [])) s) o ≡ some rest
strip_or_next pat s rest o h e k = elim (Option-cases (strip_prefix (pat ++ (slash ∷ [])) s)) [
  | inl none_there ↦ rw none_there k
  | inr (r, found) ↦ rw found (
      sym (after_first-join pat r h)
      ∙ ap (after_first slash)
          (sym (append_assoc pat (slash ∷ []) r) ∙ strip_prefix_lem (pat ++ (slash ∷ [])) s r found)
      ∙ e)
]

-- What a wildcard path is after its first segment.
abbrev pub NoSlash : String → Type 0
NoSlash s = All (λ c. nat_beq c slash ≡ false) s

wildcard_rest-join :
    (first : String) (c : ℕ) (rest : String)
    → NoSlash first
    → wildcard_rest (first ++ (slash ∷ c ∷ rest)) ≡ some (c ∷ rest)
wildcard_rest-join first c rest h =
    let found = after_first-join first (c ∷ rest) h in
    strip_or_next (codes ".d") (first ++ (slash ∷ c ∷ rest)) (c ∷ rest) _ (refl, (refl, tt)) found
      (strip_or_next (codes ".s") (first ++ (slash ∷ c ∷ rest)) (c ∷ rest) _ (refl, (refl, tt))
        found (rw found refl))

without_slash_of_slash : (path : String) → without_slash (slash ∷ path) ≡ path
unfolding strip_prefix
without_slash_of_slash path = refl

without_slash_of_other :
    (a : ℕ) (path : String) → nat_beq a slash ≡ false → without_slash (a ∷ path) ≡ a ∷ path
unfolding strip_prefix
without_slash_of_other a path e =
    let other : nat_beq slash a ≡ false = ground arith in rw other refl

granted :
    (path unslashed rest : String)
    → without_slash path ≡ unslashed
    → wildcard_rest unslashed ≡ some rest
    → from_request path ≡ ok rest
unfolding from_request
granted path unslashed rest e found =
    let extracted : extract_wildcard_path path ≡ some rest =
      unfold extract_wildcard_path in ap wildcard_rest e ∙ found in
    rw (from_request, extracted) refl

-- A handler of a wildcard route is given what follows the first segment of the path, all of it,
-- whether the path starts with a slash or not.
pub from_request-join :
    (a : ℕ) (first : String) (c : ℕ) (rest : String)
    → NoSlash (a ∷ first)
    → (from_request (a ∷ (first ++ (slash ∷ c ∷ rest))) ≡ ok (c ∷ rest))
      × (from_request (slash ∷ a ∷ (first ++ (slash ∷ c ∷ rest))) ≡ ok (c ∷ rest))
from_request-join a first c rest (e, h) =
    let found = wildcard_rest-join (a ∷ first) c rest (e, h) in
    let path : String = a ∷ (first ++ (slash ∷ c ∷ rest)) in
    (
      granted path path (c ∷ rest) (without_slash_of_other a (first ++ (slash ∷ c ∷ rest)) e) found,
      granted (slash ∷ path) path (c ∷ rest) (without_slash_of_slash path) found,
    )

-- ===== src/Str/Split.antt =====
-- Splitting a path at its slashes and joining its components again.
use coapum.Prelude.{
  ℕ, ◌≡◌, ◌≢◌, refl, ap, ◌∙◌, Bool, false, ◌||◌, ◌&&◌, List, [], ◌∷◌, ◌++◌, nat_beq, String, All,
  all, filter, not, is_empty, arith,
}
use coapum.Str.{slash, split, join, components}

abbrev pub NoSlash : String → Type 0
NoSlash = All (λ c. c ≢ slash)

-- What a component of a path is.
abbrev pub IsComponent : String → Type 0
IsComponent w = (is_empty w ≡ false) × NoSlash w

split-NoSlash : (s : String) → All NoSlash (split slash s)
unfolding split
split-NoSlash [] = (tt, tt)
split-NoSlash (x ∷ s) = ground (arith, split-NoSlash s)

pub components-IsComponent : (s : String) → All IsComponent (components s)
unfolding components
components-IsComponent s = go (split slash s) (split-NoSlash s)
  where
    go : (ws : List String) → All NoSlash ws → All IsComponent (filter (λ w. not (is_empty w)) ws)
    go [] h = tt
    go (w ∷ ws) (n, h) = ground (arith, go ws h)

pub split_of_NoSlash : (w : String) → NoSlash w → split slash w ≡ w ∷ []
unfolding split
split_of_NoSlash [] h = refl
split_of_NoSlash (x ∷ w) (n, h) = ground (arith, split_of_NoSlash w h)

pub split-append : (w s : String) → NoSlash w → split slash (w ++ slash ∷ s) ≡ w ∷ split slash s
unfolding split
split-append [] s h = refl
split-append (x ∷ w) s (n, h) = ground (arith, split-append w s h)

split-join :
    (w : String) (ws : List String)
    → All IsComponent (w ∷ ws)
    → split slash (join (slash ∷ []) (w ∷ ws)) ≡ w ∷ ws
unfolding join
split-join w [] ((e, n), h) = split_of_NoSlash w n
split-join w (v ∷ ws) ((e, n), h) = rw (split-append, n) (ap (λ l. w ∷ l) (split-join v ws h))

filter_of_IsComponent :
    (ws : List String) → All IsComponent ws → filter (λ w. not (is_empty w)) ws ≡ ws
filter_of_IsComponent [] h = refl
filter_of_IsComponent (w ∷ ws) ((e, n), h) = ground (arith, filter_of_IsComponent ws h)

-- The path with a leading slash that the components make.
unfoldable pub absolute : List String → String
absolute ws = slash ∷ join (slash ∷ []) ws

pub components-absolute : (ws : List String) → All IsComponent ws → components (absolute ws) ≡ ws
unfolding components absolute split
components-absolute [] h = unfold join in refl
components-absolute (w ∷ ws) h = rw (split-join w ws h) (filter_of_IsComponent (w ∷ ws) h)

module _ (safe : ℕ → Bool) where
  abbrev or_slash : ℕ → Bool
  or_slash c = nat_beq c slash || safe c

  all-split : (s : String) → all (all safe) (split slash s) ≡ all or_slash s
  unfolding split
  all-split [] = refl
  all-split (x ∷ s) = ground (arith, all-split s)

  all-filter_nonempty :
      (ws : List String) → all (all safe) (filter (λ w. not (is_empty w)) ws) ≡ all (all safe) ws
  all-filter_nonempty [] = refl
  all-filter_nonempty ([] ∷ ws) = all-filter_nonempty ws
  all-filter_nonempty ((x ∷ w) ∷ ws) = ap (λ b. all safe (x ∷ w) && b) (all-filter_nonempty ws)

  pub all-components : (s : String) → all (all safe) (components s) ≡ all or_slash s
  unfolding components
  all-components s = all-filter_nonempty (split slash s) ∙ all-split s

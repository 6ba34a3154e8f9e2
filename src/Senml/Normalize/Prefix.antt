-- ===== src/Senml/Normalize/Prefix.antt =====
-- The prefix of a name, described without looking for its last slash.
use mathlib.Core.Path.{ap₂, subst}
use mathlib.Core.List.{append_assoc}
use coapum.Prelude.{
  ◌≡◌, ◌∙◌, sym, ap, refl, ◌⊎◌, inl, inr, Bool, Bool-cases, true, false, not, ◌&&◌, Option,
  Option-cases, none, some, [], ◌∷◌, ◌++◌, String, is_empty, all, nat_beq, nat_beq_iff, ◌==◌, arith,
  string_eq,
}
use coapum.Str.{slash, strip_prefix, rsplit_once}
use coapum.Senml.Normalize.{NormalizedRecord, prefix}

-- A name without a slash.
abbrev pub is_local : String → Bool
is_local name = all (λ c. not (nat_beq c slash)) name

-- The name is the key, a slash and a local name; or it is local, and the key is empty.
abbrev pub is_in_group : String → String → Bool
is_in_group key name = elim (strip_prefix (key ++ (slash ∷ [])) name) [
  | some local ↦ is_local local
  | none ↦ is_empty key && is_local name
]

strip_prefix_lem : (pat s rest : String) → strip_prefix pat s ≡ some rest → pat ++ rest ≡ s
unfolding strip_prefix
strip_prefix_lem [] s rest e = cc
strip_prefix_lem (c ∷ pat) [] rest e = absurd cc
strip_prefix_lem (c ∷ pat) (x ∷ s) rest e = elim (Bool-cases (nat_beq c x)) [
  | inl k ↦
      ap₂ ◌∷◌ ((nat_beq_iff c x).0 k) (strip_prefix_lem pat s rest (rw (strip_prefix, k) at e))
  | inr k ↦ absurd cc
]

strip_prefix-append : (pat s : String) → strip_prefix pat (pat ++ s) ≡ some s
unfolding strip_prefix
strip_prefix-append [] s = refl
strip_prefix-append (c ∷ pat) s = rw ((nat_beq_iff c c).1 refl, strip_prefix-append pat s) refl

rsplit_once-local : (s : String) → is_local s ≡ true → rsplit_once slash s ≡ none
unfolding rsplit_once
rsplit_once-local [] h = refl
rsplit_once-local (c ∷ s) h = elim (Bool-cases (nat_beq c slash)) [
  | inl e ↦ absurd (ground (arith, h, e))
  | inr e ↦ rw (rsplit_once-local s (ground (arith, h, e)), e) refl
]

rsplit_once-append :
    (key local : String)
    → is_local local ≡ true
    → rsplit_once slash (key ++ (slash ∷ local)) ≡ some (key, local)
unfolding rsplit_once
rsplit_once-append [] local h = rw (rsplit_once-local local h) refl
rsplit_once-append (c ∷ key) local h = rw (rsplit_once-append key local h) refl

-- What a name is, by its last slash.
rsplit_once-IsJoin :
    (s : String)
    → ((rsplit_once slash s ≡ none) × (is_local s ≡ true))
      ⊎ (before : String) × (after : String) × (rsplit_once slash s ≡ some (before, after))
        × (is_local after ≡ true)
        × (before ++ (slash ∷ after) ≡ s)
unfolding rsplit_once
rsplit_once-IsJoin [] = inl (refl, refl)
rsplit_once-IsJoin (c ∷ s) = elim (rsplit_once-IsJoin s) [
  | inr (before, after, e, local, joins) ↦
      rw e (inr (c ∷ before, after, refl, local, ap (λ l. c ∷ l) joins))
  | inl (e, local) ↦ elim (Bool-cases (nat_beq c slash)) [
    | inl k ↦
        rw (e, k) (inr ([], s, refl, local, ap (λ x. x ∷ s) (sym ((nat_beq_iff c slash).0 k))))
    | inr k ↦ rw (e, k, local) (inl (refl, refl))
  ]
]

abbrev before_last : Option (String × String) → String
before_last none = []
before_last (some (before, after)) = before

-- The text before the last slash puts a name into its group.
is_in_group-before_last :
    (name : String) → is_in_group (before_last (rsplit_once slash name)) name ≡ true
unfolding strip_prefix
is_in_group-before_last name = elim (rsplit_once-IsJoin name) [
  | inl (e, local) ↦ rw e (unjoined name local)
  | inr (before, after, e, local, joins) ↦
      let found : strip_prefix (before ++ (slash ∷ [])) name ≡ some after =
        subst (λ s. strip_prefix (before ++ (slash ∷ [])) s ≡ some after)
          (append_assoc before (slash ∷ []) after ∙ joins)
          (strip_prefix-append (before ++ (slash ∷ [])) after) in
      rw (e, is_in_group, found) local
]
  where
    unjoined : (s : String) → is_local s ≡ true → is_in_group [] s ≡ true
    unjoined [] h = refl
    unjoined (c ∷ s) h = elim (Bool-cases (nat_beq slash c)) [
      | inl e ↦ absurd (ground (arith, h, e))
      | inr e ↦ rw (is_in_group, strip_prefix, e) h
    ]

before_last-is_in_group :
    (key name : String) → is_in_group key name ≡ true → before_last (rsplit_once slash name) ≡ key
before_last-is_in_group key name h = elim (Option-cases (strip_prefix (key ++ (slash ∷ [])) name)) [
  | inl e ↦ alone key (rw (is_in_group, e) at h)
  | inr (local, e) ↦
      rw
        (
          ← strip_prefix_lem (key ++ (slash ∷ [])) name local e,
          append_assoc key (slash ∷ []) local,
          rsplit_once-append key local (rw (is_in_group, e) at h),
        )
        refl
]
  where
    alone :
        (key : String)
        → (is_empty key && is_local name) ≡ true
        → before_last (rsplit_once slash name) ≡ key
    alone [] h = rw (rsplit_once-local name h) refl
    alone (c ∷ key) h = absurd cc

same : (a b : Bool) → (a ≡ true → b ≡ true) → (b ≡ true → a ≡ true) → a ≡ b
same true b f g = sym (f refl)
same false true f g = g refl
same false false f g = refl

module _ {F : Type 0} where
  -- A record has a prefix exactly if its name is in that group.
  pub prefix-is_in_group :
      (key : String) (r : NormalizedRecord F) → (prefix r == key) ≡ is_in_group key r.name
  unfolding prefix
  prefix-is_in_group key r =
      same (prefix r == key) (is_in_group key r.name)
        (λ e.
          let k = (string_eq.eq_exact (before_last (rsplit_once slash r.name)) key).0 e in
          subst (λ k. is_in_group k r.name ≡ true) k (is_in_group-before_last r.name))
        (λ e. (string_eq.eq_exact (prefix r) key).1 (before_last-is_in_group key r.name e))

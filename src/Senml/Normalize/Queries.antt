-- ===== src/Senml/Normalize/Queries.antt =====
-- The parts of a name, and the groups of the records by prefix.
use mathlib.Core.Path.{ap}
use mathlib.Core.List.{append_assoc, append-nil}
use coapum.Prelude.{
  ℕ, ◌≡◌, ◌∙◌, sym, ◌⊎◌, inl, inr, refl, Bool-cases, true, false, Option, none, some, List, [], ◌∷◌,
  ◌++◌, String, unwrap_or, filter, nat_beq, nat_beq_iff, if◌then◌else◌, ◌==◌, string_eq,
}
use coapum.HashMap
use coapum.HashMap.{HashMap}
use coapum.HashMap.Laws.{get-insert}
use coapum.Str.{slash, rsplit_once}
use coapum.Senml.Normalize.Prefix.{is_in_group, prefix-is_in_group}
use coapum.Senml.Normalize.{
  NormalizedPack, NormalizedRecord, base_name, local_name, prefix, group_each, group_by_prefix,
}

abbrev JoinsTo : ℕ → String → Option (String × String) → Type 0
JoinsTo c s none = Unit
JoinsTo c s (some (before, after)) = before ++ (c ∷ after) ≡ s

rsplit_once-JoinsTo : (c : ℕ) (s : String) → JoinsTo c s (rsplit_once c s)
unfolding rsplit_once
rsplit_once-JoinsTo c [] = tt
rsplit_once-JoinsTo c (x ∷ s) =
    step (rsplit_once c s) (rsplit_once-JoinsTo c s) (Bool-cases (nat_beq x c))
  where
    step :
        (o : Option (String × String))
        → JoinsTo c s o
        → (nat_beq x c ≡ true) ⊎ (nat_beq x c ≡ false)
        → JoinsTo c (x ∷ s) (elim o [
          | some (before, after) ↦ some (x ∷ before, after)
          | none ↦ if nat_beq x c then some ([], s) else none
        ])
    step (some (before, after)) h k = ap (λ l. x ∷ l) h
    step none h (inl k) = rw k (ap (λ y. y ∷ s) (sym ((nat_beq_iff x c).0 k)))
    step none h (inr k) = rw k tt

abbrev base_part : Option (String × String) → Option String
base_part none = none
base_part (some (before, after)) = some (before ++ (slash ∷ []))

abbrev local_part : String → Option (String × String) → String
local_part name none = name
local_part name (some (before, after)) = after

parts_join :
    (name : String) (o : Option (String × String))
    → JoinsTo slash name o
    → unwrap_or (base_part o) [] ++ local_part name o ≡ name
parts_join name none h = refl
parts_join name (some (before, after)) h = append_assoc before (slash ∷ []) after ∙ h

module _ {F : Type 0} where
  -- The base name and the local name of a record make up its name.
  pub base_name-local_name :
      (r : NormalizedRecord F) → unwrap_or (base_name r) [] ++ local_name r ≡ r.name
  unfolding base_name local_name
  base_name-local_name r =
      parts_join r.name (rsplit_once slash r.name) (rsplit_once-JoinsTo slash r.name)

  -- The records whose name is a prefix, a slash and a local name; for the empty prefix also those whose
  -- name is local.
  abbrev pub with_prefix : String → List (NormalizedRecord F) → List (NormalizedRecord F)
  with_prefix key rs = filter (λ r. is_in_group key r.name) rs

  -- The records with a prefix after those that are there.
  abbrev pub joined :
      Option (List (NormalizedRecord F))
      → List (NormalizedRecord F)
      → Option (List (NormalizedRecord F))
  joined none [] = none
  joined none (r ∷ rs) = some (r ∷ rs)
  joined (some old) rs = some (old ++ rs)

  joined-append :
      (old : Option (List (NormalizedRecord F))) (r : NormalizedRecord F)
      (rs : List (NormalizedRecord F))
      → joined (some (unwrap_or old [] ++ (r ∷ []))) rs ≡ joined old (r ∷ rs)
  joined-append none r rs = refl
  joined-append (some old) r rs = ap some (append_assoc old (r ∷ []) rs)

  joined-nil : (old : Option (List (NormalizedRecord F))) → old ≡ joined old []
  joined-nil none = refl
  joined-nil (some old) = ap some (sym (append-nil old))

  get-group_each :
      (key : String) (rs : List (NormalizedRecord F))
      (groups : HashMap String (List (NormalizedRecord F)))
      → HashMap.get key (group_each groups rs)
        ≡ joined (HashMap.get key groups) (with_prefix key rs)
  unfolding group_each
  get-group_each key [] groups = joined-nil (HashMap.get key groups)
  get-group_each key (r ∷ rs) groups =
      let grown : List (NormalizedRecord F) =
        unwrap_or (HashMap.get (prefix r) groups) [] ++ (r ∷ []) in
      get-group_each key rs (HashMap.insert (prefix r) grown groups)
      ∙ elim (Bool-cases (prefix r == key)) [
        | inl e ↦
            rw (get-insert (prefix r) key grown groups, ← prefix-is_in_group key r, e)
              (ap
                  (λ k.
                    joined (some (unwrap_or (HashMap.get k groups) [] ++ (r ∷ [])))
                      (with_prefix key rs))
                  ((string_eq.eq_exact (prefix r) key).0 e)
                ∙ joined-append (HashMap.get key groups) r (with_prefix key rs))
        | inr e ↦ rw (get-insert (prefix r) key grown groups, ← prefix-is_in_group key r, e) refl
      ]

  -- Grouping puts under each prefix the records whose name is the prefix, a slash and a local name
  -- without a slash, under the empty prefix also the records whose name has no slash, in their order,
  -- and makes no empty group.
  pub get-group_by_prefix :
      (key : String) (p : NormalizedPack F)
      → HashMap.get key (group_by_prefix p) ≡ joined none (with_prefix key p.records)
  unfolding group_by_prefix HashMap.get
  get-group_by_prefix key p = get-group_each key p.records []

-- ===== src/Observer/Merge.antt =====
-- `path_to_json` and `merge_json` of src/observer/mod.rs
pub mod Laws
use mathlib.Core.List.{foldr}
use coapum.Prelude.{Option, none, some, List, [], ◌∷◌, String, ◌≡◌, refl, ℕ, codes}
use coapum.Str.{components, split}
use coapum.Json.{Value, null, bool, number, string, array, object, Map, empty, entry, get, insert}

module _ {N : Type 0} where
  -- The loop of `path_to_json`, from the last component to the first.
  unfoldable pub nest : List String → Value N → Value N
  nest [] value = value
  nest (component ∷ comps) value = object (entry component (nest comps value) empty)

  unfoldable pub path_to_json : String → Value N → Value N
  unfolding nest components
  path_to_json path value = nest (components path) value

  unfoldable mutual
    pub merge_json : Value N → Value N → Value N
    merge_json (object a) (object b) = object (merge_entries a b)
    merge_json a b = b

    -- The loop over the entries of `b`.
    pub merge_entries : Map N → Map N → Map N
    merge_entries a empty = a
    merge_entries a (entry k v b) =
        merge_entries (insert k (elim (get k a) [ none ↦ v | some old ↦ merge_json old v ]) a) b

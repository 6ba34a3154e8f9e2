-- ===== src/Observer/Persistent.antt =====
-- What src/observer/sled.rs and src/observer/redb.rs share: the JSON codec that they call, the task
-- that watches, and how a persistent store stands for the map of the memory observer.
use mathlib.Core.Path.{Path}
use coapum.Prelude.{
  ◌≡◌, Bool-cases, inl, inr, Option, none, some, unwrap_or, String, string_eq, ◌==◌, Result, ok,
  err, if◌then◌else◌,
}
use coapum.HashMap
use coapum.HashMap.{HashMap}
use coapum.HashMap.Laws.{get-insert, get-remove}
use coapum.Json.{Value, null}
use coapum.Observer.Merge.{merge_json}
use coapum.Observer.Pointer.{JsonPointer}

-- What the observers call of serde_json.
pub record JsonCodec (N J : Type 0) : Type 1 where
  pub Text : Type 0
  pub to_text : Value N → Result J Text
  pub from_text : Text → Result J (Value N)

-- The value is read back from a text that it is written as.
abbrev pub IsReadBack : {N J : Type 0} → JsonCodec N J → Value N → Type 0
IsReadBack codec v = (t : codec.Text) → codec.to_text v ≡ ok t → codec.from_text t ≡ ok v

-- The conversion of a library's error by the operator `?`.
abbrev pub map_err : {A E F : Type 0} → (E → F) → Result E A → Result F A
map_err f (ok a) = ok a
map_err f (err e) = err (f e)

pub map_err-eq-ok :
    {A E F : Type 0} (f : E → F) (r : Result E A) (a : A) → map_err f r ≡ ok a → r ≡ ok a
map_err-eq-ok f (ok b) a e = cc
map_err-eq-ok f (err x) a e = absurd cc

pub ok_inj : {A E : Type 0} (a b : A) → Path (Result E A) (ok a) (ok b) → a ≡ b
ok_inj a b e = cc

abbrev pub pointed : {N : Type 0} → JsonPointer N → String → Option (Value N) → Option (Value N)
pointed json path none = none
pointed json path (some value) = json.pointer path value

-- The merged value and the stored one: a text that does not decode counts as none.
abbrev pub merge_text : {N J : Type 0} → Value N → Result J (Value N) → Value N × Value N
merge_text new_value (ok stored_value) = (merge_json stored_value new_value, stored_value)
merge_text new_value (err e) = (new_value, null)

-- The merged value and the stored one, null for a device that was never written.
abbrev pub merged_with : {N : Type 0} → Value N → Option (Value N) → Value N × Value N
merged_with new_value o = (merge_json (unwrap_or o null) new_value, unwrap_or o null)

-- Every device has in the store what it has in the map, and can be read.
abbrev pub Represents : {E V : Type 0} → (String → Result E (Option V)) → HashMap String V → Type 0
Represents load m = (device_id : String) → load device_id ≡ ok (HashMap.get device_id m)

module _ {E V : Type 0} (before after : String → Result E (Option V)) (m : HashMap String V)
    (k : String) where
  pub insert-Represents :
      (v : V)
      → Represents before m
      → ((j : String) → after j ≡ (if k == j then ok (some v) else before j))
      → Represents after (HashMap.insert k v m)
  insert-Represents v h e j = elim (Bool-cases (k == j)) [
    | inl same ↦ rw (e j, get-insert, same)
    | inr other ↦ rw (e j, get-insert, other) (h j)
  ]

  pub remove-Represents :
      Represents before m
      → ((j : String) → after j ≡ (if k == j then ok none else before j))
      → Represents after (HashMap.remove k m)
  remove-Represents h e j = elim (Bool-cases (k == j)) [
    | inl same ↦ rw (e j, get-remove, same)
    | inr other ↦ rw (e j, get-remove, other) (h j)
  ]

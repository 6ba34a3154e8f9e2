-- ===== src/Observer/Memory/Laws.antt =====
-- What the memory observer stores, returns and notifies.
use mathlib.Core.Path.{subst}
use coapum.Prelude.{
  is_empty, ◌≡◌, ◌≢◌, refl, sym, ap, ◌∙◌, none, some, List, [], ◌∷◌, All, unwrap_or, String,
  string_eq, PartialEq, list_beq_iff, Bool-cases, inl, inr, arith,
}
use coapum.HashMap
use coapum.HashMap.{HashMap}
use coapum.HashMap.Laws.{get-insert_self, get-insert_ne}
use coapum.Json
use coapum.Json.{Value, null, object, Map, value_eq}
use coapum.Json.Laws.{get-insert, value_eq_sound}
use coapum.Str.{slash, components}
use coapum.Str.Split.{absolute, components-IsComponent, IsComponent}
use coapum.Observer.Pointer.{JsonPointer, IsToken, pointer-absolute}
use coapum.Observer.Merge.{path_to_json, merge_json, nest}
use coapum.Observer.Merge.Laws.{
  at_path, merged, Diverge, at_path-merge_json, at_path-merge_json-Diverge,
}
use coapum.Observer.Channels.{notify, normalize_json_pointer}
use coapum.Observer.Channels.Registry.{registered, IsValid}
use coapum.Observer.Channels.Notify.{sent_for, notify-eq-nil_iff, notify_changed}
use coapum.Observer.Memory.{MemObserver, write, read}

module _ {N S : Type 0} where
  -- The state of a device, null for one that was never written.
  abbrev pub stored : String → MemObserver N S → Value N
  stored device_id o = unwrap_or (HashMap.get device_id o.db) null

components_head : (path c : String) (cs : List String) → components path ≡ c ∷ cs → c ≢ []
components_head path c cs e empty =
    let all_components = subst (All IsComponent) e (components-IsComponent path) in
    cc (all_components.0.0, ap is_empty empty)

module _ {N : Type 0} where
  merge_json-nest :
      (c : String) (cs : List String) (v : Value N) (m : Map N)
      → merge_json (object m) (nest (c ∷ cs) v)
        ≡ object (Json.insert c (merged (Json.get c m) (nest cs v)) m)
  unfolding merge_json nest
  merge_json-nest c cs v m = ground arith

  merge_json-null : (v : Value N) → merge_json null v ≡ v
  unfolding merge_json
  merge_json-null v = refl

normalize_absolute : (ws : List String) → normalize_json_pointer (absolute ws) ≡ absolute ws
unfolding normalize_json_pointer absolute
normalize_absolute ws = refl

module _ {N S : Type 0} ⦃e : PartialEq N⦄ (json : JsonPointer N) where
  open json use {pointer, pointer-last}

  module _ (device_id path : String) (payload : Value N) (o : MemObserver N S) where
    -- The state after a write, whatever was there: null merges like any other value.
    next : Value N
    unfolding path_to_json
    next = merge_json (stored device_id o) (path_to_json path payload)

    write-db : write json device_id path payload o ≡ (
      notify json device_id (stored device_id o) next o.channels,
      record o { db = HashMap.insert device_id next o.db },
    )
    unfolding write next
    write-db = elim (Bool-cases (value_eq (stored device_id o) null)) [
      | inl is_null ↦
          let same : stored device_id o ≡ null = value_eq_sound (stored device_id o) null is_null in
          rw (is_null, same, merge_json-null)
      | inr not_null ↦ rw not_null
    ]

    -- What a write offers and leaves, whatever was there: null merges like any other value.
    pub write_lem : write json device_id path payload o ≡ (
      notify json device_id
          (stored device_id o)
          (merge_json (stored device_id o) (path_to_json path payload))
          o.channels,
      record o {
        db =
            HashMap.insert device_id
              (merge_json (stored device_id o) (path_to_json path payload))
              o.db;
      },
    )
    unfolding next
    write_lem = write-db

    stored-write : stored device_id (write json device_id path payload o).1 ≡ next
    stored-write = rw (write-db, get-insert_self)

    -- A value that is written at a path is read back at that path, merged with what the path led to
    -- before. The path has components, none with a `~`, and is read as these, each behind a slash.
    pub read-write :
        (c : String) (cs : List String)
        → components path ≡ c ∷ cs
        → All IsToken (c ∷ cs)
        → read json device_id (absolute (c ∷ cs)) (write json device_id path payload o).1
          ≡ some (merged (at_path (c ∷ cs) (stored device_id o)) payload)
    unfolding read
    read-write c cs parts tokens =
        rw (write-db, read, get-insert_self)
          (pointer-absolute json c cs next _ tokens (
            unfold next path_to_json in
            rw parts (at_path-merge_json (c ∷ cs) payload (stored device_id o))))

    -- A write changes the state of no other device and no channel, and within the device nothing
    -- that a path leads to which diverges from the written one.
    pub write_frame :
        (other : String) (qs : List String)
        → device_id ≢ other
        → Diverge (components path) qs
        → (stored other (write json device_id path payload o).1 ≡ stored other o)
          × (at_path qs (stored device_id (write json device_id path payload o).1)
              ≡ at_path qs (stored device_id o))
          × ((write json device_id path payload o).1.channels ≡ o.channels)
    write_frame other qs ne d = (
      rw (write-db, get-insert_ne device_id other next o.db ne),
      rw stored-write (
          unfold next path_to_json in
          at_path-merge_json-Diverge (components path) qs payload (stored device_id o) d),
      rw write-db,
    )

    -- An observer of the written path, in the form that `validate_observer_path` gives it, that was
    -- there before the write is told once of the merged value, if its JSON pointer did not lead to
    -- that value already.
    pub write_notifies :
        (c : String) (cs : List String) (sender : S)
        → components path ≡ c ∷ cs
        → All IsToken (c ∷ cs)
        → IsValid o.channels
        → registered device_id (absolute (c ∷ cs)) o.channels ≡ some sender
        → pointer (absolute (c ∷ cs)) (stored device_id o)
          ≢ some (merged (at_path (c ∷ cs) (stored device_id o)) payload)
        → sent_for (absolute (c ∷ cs)) (write json device_id path payload o).0
          ≡ (
            sender,
            record {
              value = merged (at_path (c ∷ cs) (stored device_id o)) payload;
              path = absolute (c ∷ cs);
            },
          )
            ∷ []
    write_notifies c cs sender parts tokens v r changed =
        let q = absolute (c ∷ cs) in
        let value = merged (at_path (c ∷ cs) (stored device_id o)) payload in
        let after = pointer-absolute json c cs next value tokens (
          unfold next path_to_json in
          rw parts (at_path-merge_json (c ∷ cs) payload (stored device_id o))) in
        let same = normalize_absolute (c ∷ cs) in
        let told =
          notify_changed json q (stored device_id o) next device_id sender o.channels v r
            (λ e. changed (rw same at e ∙ after)) in
        rw write-db (rw (same, after) at told)

    -- An observer of the root, kept under the path `/`, is not told of a write below it: the JSON
    -- pointer `/` is the member with the empty name, and where the device's state has none, before
    -- the write, it has none after it.
    pub root_observer_silent :
        (c : String) (cs : List String) (m : Map N)
        → components path ≡ c ∷ cs
        → IsValid o.channels
        → stored device_id o ≡ object m
        → Json.get [] m ≡ none
        → sent_for (slash ∷ []) (write json device_id path payload o).0 ≡ []
    root_observer_silent c cs m parts v there unnamed =
        let x = merged (Json.get c m) (nest cs payload) in
        let form : next ≡ object (Json.insert c x m) =
          unfold next path_to_json in rw (there, parts) (merge_json-nest c cs payload m) in
        let named = components_head path c cs parts in
        let root = pointer-last [] in
        let same : pointer (slash ∷ []) (object m) ≡ pointer (slash ∷ []) next =
          root m tt
          ∙ sym (
              rw form (
                root (Json.insert c x m) tt
                ∙ ground (arith, get-insert c [] x m, named, list_beq_iff c []))) in
        rw write-db (
          (notify-eq-nil_iff json (slash ∷ []) (stored device_id o) next device_id o.channels v).1
            (inr (unfold normalize_json_pointer in rw there same)))

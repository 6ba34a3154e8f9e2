-- ===== src/Observer/Sled/Laws.antt =====
-- The sled observer against the memory observer, and what it does when the database fails.
use mathlib.Core.Path.{subst}
use coapum.Prelude.{
  ◌≡◌, refl, sym, ap, ◌∙◌, Bool-cases, inl, inr, Option, none, some, String, string_eq, ◌==◌,
  PartialEq, Result, ok, err, if◌then◌else◌,
}
use coapum.HashMap
use coapum.Json.{Value}
use coapum.Observer.Pointer.{JsonPointer}
use coapum.Observer.Merge.{path_to_json, merge_json}
use coapum.Observer.Memory
use coapum.Observer.Memory.{MemObserver}
use coapum.Observer.Memory.Laws.{stored, write_lem}
use coapum.Observer.Persistent.{
  merge_text, merged_with, JsonCodec, IsReadBack, pointed, map_err-eq-ok, ok_inj, Represents,
  insert-Represents,
}
use coapum.Observer.Sled.{
  Sled, SledObserver, SledObserverError, sled_error, decoded, load, save, insert_text, merge_stored,
  merge_text, decoded_text, stored_as, write, read, clear,
}

module _ {N E J : Type 0} (codec : JsonCodec N J) (sled : Sled E codec.Text) where
  decoded-insert :
      (k j : String) (v : Value N) (t : codec.Text) (db after : sled.Db)
      → IsReadBack codec v
      → codec.to_text v ≡ ok t
      → sled.insert k t db ≡ ok after
      → load codec sled j after ≡ (if k == j then ok (some v) else load codec sled j db)
  unfolding load
  decoded-insert k j v t db after reads_back e inserted = elim (Bool-cases (k == j)) [
    | inl same ↦ rw (sled.get-insert k j t db after inserted, same, reads_back t e) refl
    | inr other ↦ rw (sled.get-insert k j t db after inserted, other) refl
  ]

  insert_text_lem :
      (k j : String) (v : Value N) (r : Result J codec.Text) (db after : sled.Db)
      → IsReadBack codec v
      → codec.to_text v ≡ r
      → insert_text codec sled k r db ≡ ok after
      → load codec sled j after ≡ (if k == j then ok (some v) else load codec sled j db)
  insert_text_lem k j v (err x) db after reads_back e saved = absurd cc
  insert_text_lem k j v (ok t) db after reads_back e saved =
      decoded-insert k j v t db after reads_back e
        (map_err-eq-ok sled_error (sled.insert k t db) after saved)

  -- What is stored after a value was saved.
  load-save :
      (k j : String) (v : Value N) (db after : sled.Db)
      → IsReadBack codec v
      → save codec sled k v db ≡ ok after
      → load codec sled j after ≡ (if k == j then ok (some v) else load codec sled j db)
  unfolding save
  load-save k j v db after reads_back saved =
      insert_text_lem k j v (codec.to_text v) db after reads_back refl saved

  merge_text_lem :
      (new_value : Value N) (r : Result J (Value N)) (o : Option (Value N))
      → decoded_text codec sled r ≡ ok o
      → merge_text new_value r ≡ merged_with new_value o
  merge_text_lem new_value (err x) o e = absurd cc
  merge_text_lem new_value (ok v) o e = ap (merged_with new_value) (ok_inj (some v) o e)

  merge_stored_lem :
      (new_value : Value N) (r : Result E (Option codec.Text)) (o : Option (Value N))
      → decoded codec sled r ≡ ok o
      → merge_stored codec sled new_value r ≡ merged_with new_value o
  unfolding merge_stored merge_json
  merge_stored_lem new_value (err x) o e = absurd cc
  merge_stored_lem new_value (ok none) o e = ap (merged_with new_value) (ok_inj none o e)
  merge_stored_lem new_value (ok (some t)) o e = merge_text_lem new_value (codec.from_text t) o e

-- The database holds what the memory observer holds, and the channels are the same.
pub record Models {N S E J : Type 0} (codec : JsonCodec N J) (sled : Sled E codec.Text)
    (o : SledObserver sled.Db S) (m : MemObserver N S) : Type 0 where
  pub same_state : Represents (λ device_id. load codec sled device_id o.db) m.db
  pub same_channels : o.channels ≡ m.channels

module _ {N S E J : Type 0} ⦃e : PartialEq N⦄ (json : JsonPointer N) (codec : JsonCodec N J)
    (sled : Sled E codec.Text) (device_id path : String) (o : SledObserver sled.Db S)
    (m : MemObserver N S) (models : Models codec sled o m) where
  write_steps :
      (payload : Value N)
      → write json codec sled device_id path payload o ≡ (
        (Memory.write json device_id path payload m).0,
        stored_as codec sled
            (save codec sled device_id
              (merge_json (stored device_id m) (path_to_json path payload))
              o.db)
            o,
      )
  unfolding write load
  write_steps payload =
      rw
        (
          merge_stored_lem codec sled (path_to_json path payload) (sled.get device_id o.db)
              (HashMap.get device_id m.db) (models.same_state device_id),
          write_lem json device_id path payload m,
          models.same_channels,
        )
        refl

  -- What is stored when a value is saved.
  saved :
      (value : Value N) (r : Result (SledObserverError E J) sled.Db)
      → IsReadBack codec value
      → save codec sled device_id value o.db ≡ r
      → (after : SledObserver sled.Db S) → stored_as codec sled r o ≡ (ok tt, after)
      → Models codec sled after (record m { db = HashMap.insert device_id value m.db })
  saved value (err x) reads_back e after k = absurd cc
  saved value (ok db) reads_back e after k =
      let same : record o { db = db } ≡ after = cc in
      subst
        (λ after. Models codec sled after (record m { db = HashMap.insert device_id value m.db }))
        same
        (record {
          same_state =
              insert-Represents (λ j. load codec sled j o.db) (λ j. load codec sled j db) m.db
                device_id value models.same_state
                (λ j. load-save codec sled device_id j value o.db db reads_back e);
          same_channels = models.same_channels;
        })

  failed :
      (r : Result (SledObserverError E J) sled.Db) (x : SledObserverError E J)
      (after : SledObserver sled.Db S)
      → stored_as codec sled r o ≡ (err x, after)
      → after ≡ o
  failed (ok db) x after k = absurd cc
  failed (err y) x after k = cc

  -- While the database can be read, a write that succeeds offers the notifications of the memory
  -- observer and does to the database what the memory observer does to its map, if the JSON codec
  -- reads the merged value back from the text that it is written as.
  pub write-refines :
      (payload : Value N) (after : SledObserver sled.Db S)
      → IsReadBack codec (merge_json (stored device_id m) (path_to_json path payload))
      → (write json codec sled device_id path payload o).1 ≡ (ok tt, after)
      → ((write json codec sled device_id path payload o).0
          ≡ (Memory.write json device_id path payload m).0)
        × Models codec sled after (Memory.write json device_id path payload m).1
  write-refines payload after reads_back h = rw (write_steps payload) (
    refl,
    rw (write_lem json device_id path payload m) (
        saved _ (save codec sled device_id _ o.db) reads_back refl after
          (ap (λ r. r.1) (sym (write_steps payload)) ∙ h)),
  )

  -- While the database can be read, a write that fails has offered the notifications all the same,
  -- and stored nothing: the observers are told of a value that no read returns.
  pub write_fails :
      (payload : Value N) (x : SledObserverError E J) (after : SledObserver sled.Db S)
      → (write json codec sled device_id path payload o).1 ≡ (err x, after)
      → ((write json codec sled device_id path payload o).0
          ≡ (Memory.write json device_id path payload m).0)
        × (after ≡ o)
  write_fails payload x after h = rw (write_steps payload) (
    refl,
    failed (save codec sled device_id _ o.db) x after
        (ap (λ r. r.1) (sym (write_steps payload)) ∙ h),
  )

  -- While the database can be read, a read returns what the memory observer returns.
  pub read-refines : read json codec sled device_id path o ≡ ok (Memory.read json device_id path m)
  unfolding read Memory.read
  read-refines = rw (read, models.same_state device_id) (pointed_lem (HashMap.get device_id m.db))
    where
      pointed_lem :
          (v : Option (Value N))
          → (Path
              (Result (SledObserverError E J) (Option (Value N)))
              (ok (pointed json path v))
              (ok (elim v [ none ↦ none | some value ↦ json.pointer path value ])))
      pointed_lem none = refl
      pointed_lem (some v) = refl

  -- A removal that fails is not reported: the call succeeds, and what was stored is still read.
  pub clear_unreported :
      (x : E)
      → sled.remove device_id o.db ≡ err x
      → ((clear codec sled device_id o).0 ≡ ok tt)
        × (read json codec sled device_id path (clear codec sled device_id o).1
            ≡ ok (Memory.read json device_id path m))
  unfolding clear
  clear_unreported x e = rw (clear, e) (refl, read-refines)

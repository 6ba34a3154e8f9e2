-- ===== src/Observer/Redb/Laws.antt =====
-- The redb observer against the memory observer.
use mathlib.Core.Path.{subst}
use coapum.Prelude.{
  ◌≡◌, refl, sym, ap, ◌∙◌, Bool-cases, inl, inr, Option, none, some, String, string_eq, ◌==◌,
  PartialEq, Result, ok, err, ◌>>=◌, to_option, if◌then◌else◌,
}
use coapum.HashMap
use coapum.HashMap.Laws.{get-insert, get-remove}
use coapum.Json.{Value}
use coapum.Observer.Pointer.{JsonPointer}
use coapum.Observer.Merge.{path_to_json, merge_json}
use coapum.Observer.Memory
use coapum.Observer.Memory.{MemObserver}
use coapum.Observer.Memory.Laws.{stored, write_lem}
use coapum.Observer.Persistent.{
  JsonCodec, IsReadBack, map_err, map_err-eq-ok, ok_inj, merge_text, merged_with, Represents,
}
use coapum.Observer.Redb.{
  Redb, RedbObserver, RedbObserverError, transaction_error, table_error, storage_error,
  commit_error, json_error, in_a_row, fetch, decoded, transact, save, load, merge_found, stored_as,
  write, clear,
}

-- What stands before a bind that succeeds.
map_err->>=-inv :
    {A B E F : Type 0} (f : E → F) (r : Result E A) (k : A → Result F B) (b : B)
    → (map_err f r >>= k) ≡ ok b
    → (a : A) × (r ≡ ok a) × (k a ≡ ok b)
map_err->>=-inv f (ok a) k b h = (a, refl, h)
map_err->>=-inv f (err e) k b h = absurd cc

>>=-inv :
    {A B E : Type 0} (r : Result E A) (k : A → Result E B) (b : B)
    → (r >>= k) ≡ ok b
    → (a : A) × (r ≡ ok a) × (k a ≡ ok b)
>>=-inv (ok a) k b h = (a, refl, h)
>>=-inv (err e) k b h = absurd cc

to_option-inv : {A E : Type 0} (r : Result E A) (a : A) → to_option r ≡ some a → r ≡ ok a
to_option-inv (ok b) a h = cc
to_option-inv (err e) a h = absurd cc

to_option-map_err :
    {A E F : Type 0} (f : E → F) (r : Result E A) → to_option (map_err f r) ≡ to_option r
to_option-map_err f (ok a) = refl
to_option-map_err f (err e) = refl

two_in_a_row :
    {B C E F : Type 0} (f g : E → F) (r : Result E B) (k : B → Result E C)
    → to_option (map_err f r >>= λ b. map_err g (k b)) ≡ to_option (r >>= λ b. k b)
two_in_a_row f g (ok b) k = to_option-map_err g (k b)
two_in_a_row f g (err e) k = refl

-- The conversions of the errors do not change what succeeds.
three_in_a_row :
    {A B C E F : Type 0} (f g h : E → F) (r : Result E A) (k : A → Result E B) (l : B → Result E C)
    → to_option (map_err f r >>= λ a. map_err g (k a) >>= λ b. map_err h (l b)) ≡ in_a_row r k l
three_in_a_row f g h (ok a) k l = two_in_a_row g h (k a) l
three_in_a_row f g h (err e) k l = refl

module _ {N E J : Type 0} (codec : JsonCodec N J) (redb : Redb E codec.Text) where
  to_option-fetch :
      (j : String) (db : redb.Db)
      → to_option (fetch codec redb j db)
        ≡ in_a_row (redb.begin_read db) redb.open_table (redb.get j)
  unfolding fetch
  to_option-fetch j db =
      three_in_a_row transaction_error table_error storage_error (redb.begin_read db)
        redb.open_table (redb.get j)

  -- What is read after a change of one key that was committed.
  fetch-transact :
      (change : redb.WriteTxn → Result E redb.WriteTxn) (j : String) (db after : redb.Db)
      (found later : Option codec.Text)
      → ((begun opened changed : redb.WriteTxn)
          → redb.begin_write db ≡ ok begun
          → redb.open_table_mut begun ≡ ok opened
          → change opened ≡ ok changed
          → redb.commit changed ≡ ok after
          → in_a_row (redb.begin_read db) redb.open_table (redb.get j) ≡ some found
          → in_a_row (redb.begin_read after) redb.open_table (redb.get j) ≡ some later)
      → transact codec redb change db ≡ ok after
      → fetch codec redb j db ≡ ok found
      → fetch codec redb j after ≡ ok later
  fetch-transact change j db after found later law done before =
      let (begun, e1, h1) = map_err->>=-inv transaction_error (redb.begin_write db) _ after done in
      let (opened, e2, h2) = map_err->>=-inv table_error (redb.open_table_mut begun) _ after h1 in
      let (changed, e3, h3) = map_err->>=-inv storage_error (change opened) _ after h2 in
      let e4 = map_err-eq-ok commit_error (redb.commit changed) after h3 in
      to_option-inv (fetch codec redb j after) later (
        to_option-fetch j after
        ∙ law begun opened changed e1 e2 e3 e4 (sym (to_option-fetch j db) ∙ ap to_option before))

  load-save :
      (k j : String) (v : Value N) (db after : redb.Db) (o : Option (Value N))
      → IsReadBack codec v
      → save codec redb k v db ≡ ok after
      → load codec redb j db ≡ ok o
      → load codec redb j after ≡ ok (if k == j then some v else o)
  unfolding save load
  load-save k j v db after o reads_back saved before =
      let (t, encoded, done) = map_err->>=-inv json_error (codec.to_text v) _ after saved in
      let (found, e, h) = >>=-inv (fetch codec redb j db) (decoded codec redb) o before in
      let later =
        fetch-transact (redb.insert k t) j db after found (if k == j then some t else found)
          (λ begun opened changed. redb.get-insert k j t db after begun opened changed found) done
          e in
      elim (Bool-cases (k == j)) [
        | inl same ↦ rw (load, later, same, reads_back t encoded) refl
        | inr other ↦ rw (load, later, other) h
      ]

  load-remove :
      (k j : String) (db after : redb.Db) (o : Option (Value N))
      → transact codec redb (redb.remove k) db ≡ ok after
      → load codec redb j db ≡ ok o
      → load codec redb j after ≡ ok (if k == j then none else o)
  unfolding load
  load-remove k j db after o done before =
      let (found, e, h) = >>=-inv (fetch codec redb j db) (decoded codec redb) o before in
      let later =
        fetch-transact (redb.remove k) j db after found (if k == j then none else found)
          (λ begun opened changed. redb.get-remove k j db after begun opened changed found) done
          e in
      elim (Bool-cases (k == j)) [
        | inl same ↦ rw (load, later, same) refl
        | inr other ↦ rw (load, later, other) h
      ]

  merge_text_lem :
      (new_value : Value N) (r : Result J (Value N)) (o : Option (Value N))
      → Path
          (Result (RedbObserverError E J) (Option (Value N)))
          (map_err json_error r >>= λ v. ok (some v))
          (ok o)
      → merge_text new_value r ≡ merged_with new_value o
  merge_text_lem new_value (err x) o e = absurd cc
  merge_text_lem new_value (ok v) o e = ap (merged_with new_value) (ok_inj (some v) o e)

  merge_found_lem :
      (new_value : Value N) (found : Option codec.Text) (o : Option (Value N))
      → decoded codec redb found ≡ ok o
      → merge_found codec redb new_value found ≡ merged_with new_value o
  unfolding merge_json
  merge_found_lem new_value none o e = ap (merged_with new_value) (ok_inj none o e)
  merge_found_lem new_value (some t) o e = merge_text_lem new_value (codec.from_text t) o e

-- The database holds what the memory observer holds, and the channels are the same.
pub record Models {N S E J : Type 0} (codec : JsonCodec N J) (redb : Redb E codec.Text)
    (o : RedbObserver redb.Db S) (m : MemObserver N S) : Type 0 where
  pub same_state : Represents (λ device_id. load codec redb device_id o.db) m.db
  pub same_channels : o.channels ≡ m.channels

stored_as-inv :
    {N S E J : Type 0} (codec : JsonCodec N J) (redb : Redb E codec.Text)
    (r : Result (RedbObserverError E J) redb.Db) (o after : RedbObserver redb.Db S)
    → stored_as codec redb r o ≡ (ok tt, after)
    → (db : redb.Db) × (r ≡ ok db) × (record o { db = db } ≡ after)
stored_as-inv codec redb (ok db) o after h = (db, refl, cc)
stored_as-inv codec redb (err e) o after h = absurd cc

module _ {N S E J : Type 0} ⦃e : PartialEq N⦄ (json : JsonPointer N) (codec : JsonCodec N J)
    (redb : Redb E codec.Text) (device_id path : String) (o : RedbObserver redb.Db S)
    (m : MemObserver N S) (models : Models codec redb o m) where
  write_steps :
      (payload : Value N)
      → write json codec redb device_id path payload o ≡ (
        (Memory.write json device_id path payload m).0,
        stored_as codec redb
            (save codec redb device_id
              (merge_json (stored device_id m) (path_to_json path payload))
              o.db)
            o,
      )
  unfolding write load
  write_steps payload =
      let (found, fetched, h) =
        >>=-inv (fetch codec redb device_id o.db) (decoded codec redb) (HashMap.get device_id m.db)
          (models.same_state device_id) in
      rw
        (
          write,
          fetched,
          merge_found_lem codec redb (path_to_json path payload) found (HashMap.get device_id m.db)
              h,
          write_lem json device_id path payload m,
          models.same_channels,
        )
        refl

  -- While the database can be read, a write that succeeds offers the notifications of the memory
  -- observer, and its transaction does to the database what the memory observer does to its map, if
  -- the JSON codec reads the merged value back from the text that it is written as.
  pub write-Models :
      (payload : Value N) (after : RedbObserver redb.Db S)
      → IsReadBack codec (merge_json (stored device_id m) (path_to_json path payload))
      → (write json codec redb device_id path payload o).1 ≡ (ok tt, after)
      → ((write json codec redb device_id path payload o).0
          ≡ (Memory.write json device_id path payload m).0)
        × Models codec redb after (Memory.write json device_id path payload m).1
  write-Models payload after reads_back h =
      let value = merge_json (stored device_id m) (path_to_json path payload) in
      let (db, done, same) =
        stored_as-inv codec redb (save codec redb device_id value o.db) o after
          (ap (λ r. r.1) (sym (write_steps payload)) ∙ h) in
      rw (write_steps payload, write_lem json device_id path payload m)
        (
          refl,
          subst
              (λ after.
                Models codec redb after (record m { db = HashMap.insert device_id value m.db }))
              same
              (record {
                same_state = λ j.
                    load-save codec redb device_id j value o.db db (HashMap.get j m.db) reads_back
                      done (models.same_state j)
                    ∙ ap ok (sym (get-insert device_id j value m.db));
                same_channels = models.same_channels;
              }),
        )

  -- While the database can be read, a removal that succeeds does to the database what the memory
  -- observer does to its map.
  pub clear-Models :
      (after : RedbObserver redb.Db S)
      → clear codec redb device_id o ≡ (ok tt, after)
      → Models codec redb after (Memory.clear device_id m)
  unfolding clear Memory.clear
  clear-Models after h =
      let (db, done, same) =
        stored_as-inv codec redb (transact codec redb (redb.remove device_id) o.db) o after h in
      subst (λ after. Models codec redb after (record m { db = HashMap.remove device_id m.db }))
        same
        (record {
          same_state = λ j.
              load-remove codec redb device_id j o.db db (HashMap.get j m.db) done
                (models.same_state j)
              ∙ ap ok (sym (get-remove device_id j m.db));
          same_channels = models.same_channels;
        })

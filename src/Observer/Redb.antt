-- ===== src/Observer/Redb.antt =====
-- `RedbObserver` of src/observer/redb.rs. The database, its transactions and its table are
-- parameters. A blocking task ends by returning, so that `TaskJoinError` does not arise; the watching
-- task only waits for its end, and is modelled by whether it runs.
pub mod Laws
mod Tests
use coapum.Prelude.{
  ℕ, ◌≡◌, Bool, true, false, Option, none, some, List, [], String, string_eq, ◌==◌, PartialEq,
  Result, ok, err, ◌>>=◌, to_option, if◌then◌else◌,
}
use coapum.Json.{Value, null}
use coapum.Observer.Pointer.{JsonPointer}
use coapum.Observer.Merge.{path_to_json, merge_json}
use coapum.Observer.Channels
use coapum.Observer.Channels.{ObserverChannels, ObserverValue}
use coapum.Observer.Persistent.{JsonCodec, map_err, merge_text, pointed}

-- What three calls give in a row, if each succeeds.
abbrev pub in_a_row :
    {E A B C : Type 0} → Result E A → (A → Result E B) → (B → Result E C) → Option C
in_a_row r f g = to_option (r >>= λ a. f a >>= λ b. g b)

-- What the code calls of redb. A committed transaction did what was called on it.
pub record Redb (E Text : Type 0) : Type 1 where
  pub Db : Type 0
  pub ReadTxn : Type 0
  pub Table : Type 0
  pub WriteTxn : Type 0
  pub begin_read : Db → Result E ReadTxn
  pub open_table : ReadTxn → Result E Table
  pub get : String → Table → Result E (Option Text)
  pub begin_write : Db → Result E WriteTxn
  pub open_table_mut : WriteTxn → Result E WriteTxn
  pub insert : String → Text → WriteTxn → Result E WriteTxn
  pub remove : String → WriteTxn → Result E WriteTxn
  pub commit : WriteTxn → Result E Db
  pub get-insert :
      (k j : String) (x : Text) (db after : Db) (begun opened changed : WriteTxn) (o : Option Text)
      → begin_write db ≡ ok begun
      → open_table_mut begun ≡ ok opened
      → insert k x opened ≡ ok changed
      → commit changed ≡ ok after
      → in_a_row (begin_read db) open_table (get j) ≡ some o
      → in_a_row (begin_read after) open_table (get j) ≡ some (if k == j then some x else o)
  pub get-remove :
      (k j : String) (db after : Db) (begun opened changed : WriteTxn) (o : Option Text)
      → begin_write db ≡ ok begun
      → open_table_mut begun ≡ ok opened
      → remove k opened ≡ ok changed
      → commit changed ≡ ok after
      → in_a_row (begin_read db) open_table (get j) ≡ some o
      → in_a_row (begin_read after) open_table (get j) ≡ some (if k == j then none else o)

pub data RedbObserverError (E J : Type 0) : Type 0 where
  database_error transaction_error table_error storage_error commit_error :
      E → RedbObserverError E J
  json_error : J → RedbObserverError E J
  id_not_set task_join_error : RedbObserverError E J

pub record RedbObserver (D S : Type 0) : Type 0 where
  pub db : D
  pub is_watching : Bool
  pub channels : ObserverChannels S

module _ {D S : Type 0} where
  unfoldable pub register : String → String → S → RedbObserver D S → RedbObserver D S
  register device_id path sender o = record o {
    channels = Channels.register device_id path sender o.channels;
    is_watching = true;
  }

  -- The end of a call that removed observers, by whether none is left.
  abbrev after_removal : Bool × ObserverChannels S → RedbObserver D S → RedbObserver D S
  after_removal (all_empty, channels) o = record o {
    channels = channels;
    is_watching = if all_empty then false else o.is_watching;
  }

  unfoldable pub unregister : String → String → RedbObserver D S → RedbObserver D S
  unregister device_id path o = after_removal (Channels.unregister device_id path o.channels) o

  unfoldable pub unregister_all : RedbObserver D S → RedbObserver D S
  unregister_all o = record o { channels = Channels.unregister_all o.channels; is_watching = false }

  unfoldable pub unregister_device : String → RedbObserver D S → RedbObserver D S
  unregister_device device_id o = after_removal (Channels.unregister_device device_id o.channels) o

  unfoldable pub observer_count : String → RedbObserver D S → ℕ
  observer_count device_id o = Channels.device_observer_count device_id o.channels

module _ {N E J : Type 0} (codec : JsonCodec N J) (redb : Redb E codec.Text) where
  -- The stored text of a device.
  unfoldable pub fetch : String → redb.Db → Result (RedbObserverError E J) (Option codec.Text)
  fetch device_id db = map_err transaction_error (redb.begin_read db) >>= λ txn.
      map_err table_error (redb.open_table txn) >>= λ table.
      map_err storage_error (redb.get device_id table)

  -- The merged value and the stored one: a text that does not decode counts as none.
  abbrev pub merge_found : Value N → Option codec.Text → Value N × Value N
  merge_found new_value none = (new_value, null)
  merge_found new_value (some t) = merge_text new_value (codec.from_text t)

  -- A transaction that changes the table.
  abbrev pub transact :
      (redb.WriteTxn → Result E redb.WriteTxn) → redb.Db → Result (RedbObserverError E J) redb.Db
  transact change db = map_err transaction_error (redb.begin_write db) >>= λ begun.
      map_err table_error (redb.open_table_mut begun) >>= λ opened.
      map_err storage_error (change opened) >>= λ changed.
      map_err commit_error (redb.commit changed)

  -- The value, encoded and inserted.
  unfoldable pub save : String → Value N → redb.Db → Result (RedbObserverError E J) redb.Db
  save device_id value db =
      map_err json_error (codec.to_text value) >>= λ t. transact (redb.insert device_id t) db

  -- The value of a stored text.
  abbrev pub decoded : Option codec.Text → Result (RedbObserverError E J) (Option (Value N))
  decoded none = ok none
  decoded (some t) = map_err json_error (codec.from_text t) >>= λ v. ok (some v)

  -- The stored value of a device.
  unfoldable pub load : String → redb.Db → Result (RedbObserverError E J) (Option (Value N))
  unfolding fetch
  load device_id db = fetch device_id db >>= decoded

  module _ {S : Type 0} where
    -- The result of a change and the observer after it.
    abbrev pub stored_as :
        Result (RedbObserverError E J) redb.Db
        → RedbObserver redb.Db S
        → Result (RedbObserverError E J) (Unit {0}) × RedbObserver redb.Db S
    stored_as (ok db) o = (ok tt, record o { db = db })
    stored_as (err e) o = (err e, o)

    unfoldable pub clear :
        String
        → RedbObserver redb.Db S
        → Result (RedbObserverError E J) (Unit {0}) × RedbObserver redb.Db S
    clear device_id o = stored_as (transact (redb.remove device_id) o.db) o

module _ {N S E J : Type 0} ⦃e : PartialEq N⦄ (json : JsonPointer N) (codec : JsonCodec N J)
    (redb : Redb E codec.Text) where
  -- A write from its second phase on: the notifications, and the storing of the merged value.
  abbrev pub write_merged :
      String
      → Value N × Value N
      → RedbObserver redb.Db S
      → List (S × ObserverValue N)
        × (Result (RedbObserverError E J) (Unit {0}) × RedbObserver redb.Db S)
  write_merged device_id (value, current_value) o = (
    Channels.notify json device_id current_value value o.channels,
    stored_as codec redb (save codec redb device_id value o.db) o,
  )

  -- The notifications that are offered, the result, and the observer after the write. Where the
  -- database cannot be read there are none.
  unfoldable pub write :
      String
      → String
      → Value N
      → RedbObserver redb.Db S
      → List (S × ObserverValue N)
        × (Result (RedbObserverError E J) (Unit {0}) × RedbObserver redb.Db S)
  unfolding fetch save
  write device_id path payload o = elim (fetch codec redb device_id o.db) [
    | err e ↦ ([], (err e, o))
    | ok found ↦ write_merged device_id (merge_found codec redb (path_to_json path payload) found) o
  ]

  unfoldable pub read :
      String → String → RedbObserver redb.Db S → Result (RedbObserverError E J) (Option (Value N))
  unfolding load
  read device_id path o = load codec redb device_id o.db >>= λ value. ok (pointed json path value)

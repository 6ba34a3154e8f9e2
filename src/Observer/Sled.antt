-- ===== src/Observer/Sled.antt =====
-- `SledObserver` of src/observer/sled.rs. The database is a parameter. A blocking task ends by
-- returning, so that `TaskJoinError` does not arise; the watching task only waits for its end, and is
-- modelled by whether it runs.
pub mod Laws
mod Tests
use coapum.Prelude.{
  ℕ, ◌≡◌, Bool, true, false, Option, none, some, List, String, string_eq, ◌==◌, PartialEq, Result,
  ok, err, if◌then◌else◌,
}
use coapum.Json.{Value, null}
use coapum.Observer.Pointer.{JsonPointer}
use coapum.Observer.Merge.{path_to_json, merge_json}
use coapum.Observer.Channels
use coapum.Observer.Channels.{ObserverChannels, ObserverValue}
use coapum.Observer.Persistent.{JsonCodec, map_err, merge_text, pointed}

-- What the code calls of `sled::Db`, where a call fails or not by the state of the database. A call
-- that succeeds does what it says.
pub record Sled (E Text : Type 0) : Type 1 where
  pub Db : Type 0
  pub get : String → Db → Result E (Option Text)
  pub insert : String → Text → Db → Result E Db
  pub remove : String → Db → Result E Db
  pub get-insert :
      (k j : String) (t : Text) (db after : Db)
      → insert k t db ≡ ok after
      → get j after ≡ (if k == j then ok (some t) else get j db)
  pub get-remove :
      (k j : String) (db after : Db)
      → remove k db ≡ ok after
      → get j after ≡ (if k == j then ok none else get j db)

pub data SledObserverError (E J : Type 0) : Type 0 where
  sled_error : E → SledObserverError E J
  json_error : J → SledObserverError E J
  id_not_set : SledObserverError E J
  task_join_error : SledObserverError E J

pub record SledObserver (D S : Type 0) : Type 0 where
  pub db : D
  pub is_watching : Bool
  pub channels : ObserverChannels S

module _ {D S : Type 0} where
  unfoldable pub new : D → SledObserver D S
  unfolding Channels.new
  new db = record { db = db; is_watching = false; channels = Channels.new }

  unfoldable pub register : String → String → S → SledObserver D S → SledObserver D S
  register device_id path sender o = record o {
    channels = Channels.register device_id path sender o.channels;
    is_watching = true;
  }

  -- The end of a call that removed observers, by whether none is left.
  abbrev after_removal : Bool × ObserverChannels S → SledObserver D S → SledObserver D S
  after_removal (all_empty, channels) o = record o {
    channels = channels;
    is_watching = if all_empty then false else o.is_watching;
  }

  unfoldable pub unregister : String → String → SledObserver D S → SledObserver D S
  unregister device_id path o = after_removal (Channels.unregister device_id path o.channels) o

  unfoldable pub unregister_all : SledObserver D S → SledObserver D S
  unregister_all o = record o { channels = Channels.unregister_all o.channels; is_watching = false }

  unfoldable pub unregister_device : String → SledObserver D S → SledObserver D S
  unregister_device device_id o = after_removal (Channels.unregister_device device_id o.channels) o

  unfoldable pub observer_count : String → SledObserver D S → ℕ
  observer_count device_id o = Channels.device_observer_count device_id o.channels

module _ {N E J : Type 0} (codec : JsonCodec N J) (sled : Sled E codec.Text) where
  -- The merged value and the stored one: a value that cannot be read counts as none.
  unfoldable pub merge_stored : Value N → Result E (Option codec.Text) → Value N × Value N
  merge_stored new_value (ok (some t)) = merge_text new_value (codec.from_text t)
  merge_stored new_value (ok none) = (new_value, null)
  merge_stored new_value (err e) = (new_value, null)

  abbrev pub insert_text :
      String → Result J codec.Text → sled.Db → Result (SledObserverError E J) sled.Db
  insert_text device_id (err e) db = err (json_error e)
  insert_text device_id (ok t) db = map_err sled_error (sled.insert device_id t db)

  -- The value, encoded and inserted.
  unfoldable pub save : String → Value N → sled.Db → Result (SledObserverError E J) sled.Db
  save device_id value db = insert_text device_id (codec.to_text value) db

  abbrev pub decoded_text : Result J (Value N) → Result (SledObserverError E J) (Option (Value N))
  decoded_text (err e) = err (json_error e)
  decoded_text (ok value) = ok (some value)

  -- A stored text, decoded.
  abbrev pub decoded :
      Result E (Option codec.Text) → Result (SledObserverError E J) (Option (Value N))
  decoded (err e) = err (sled_error e)
  decoded (ok none) = ok none
  decoded (ok (some t)) = decoded_text (codec.from_text t)

  -- The stored value of a device.
  unfoldable pub load : String → sled.Db → Result (SledObserverError E J) (Option (Value N))
  load device_id db = decoded (sled.get device_id db)

  module _ {S : Type 0} where
    -- The result of a write and the observer after it.
    abbrev pub stored_as :
        Result (SledObserverError E J) sled.Db
        → SledObserver sled.Db S
        → Result (SledObserverError E J) (Unit {0}) × SledObserver sled.Db S
    stored_as (ok db) o = (ok tt, record o { db = db })
    stored_as (err e) o = (err e, o)

    -- An error of the removal is dropped.
    unfoldable pub clear :
        String
        → SledObserver sled.Db S
        → Result (SledObserverError E J) (Unit {0}) × SledObserver sled.Db S
    clear device_id o = elim (sled.remove device_id o.db) [
      | ok db ↦ (ok tt, record o { db = db })
      | err e ↦ (ok tt, o)
    ]

module _ {N S E J : Type 0} ⦃e : PartialEq N⦄ (json : JsonPointer N) (codec : JsonCodec N J)
    (sled : Sled E codec.Text) where
  -- The notifications that are offered, the result, and the observer after the write.
  unfoldable pub write :
      String
      → String
      → Value N
      → SledObserver sled.Db S
      → List (S × ObserverValue N)
        × (Result (SledObserverError E J) (Unit {0}) × SledObserver sled.Db S)
  unfolding merge_stored save
  write device_id path payload o =
      let (value, current_value) =
        merge_stored codec sled (path_to_json path payload) (sled.get device_id o.db) in
      (
        Channels.notify json device_id current_value value o.channels,
        stored_as codec sled (save codec sled device_id value o.db) o,
      )

  unfoldable pub read :
      String → String → SledObserver sled.Db S → Result (SledObserverError E J) (Option (Value N))
  unfolding load
  read device_id path o = elim (load codec sled device_id o.db) [
    | err e ↦ err e
    | ok value ↦ ok (pointed json path value)
  ]

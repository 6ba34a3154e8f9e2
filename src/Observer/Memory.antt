-- ===== src/Observer/Memory.antt =====
-- `MemObserver` of src/observer/memory.rs. Its calls cannot fail, so that they return no `Result`.
pub mod Laws
use coapum.Prelude.{
  ℕ, Bool, Option, none, some, List, [], unwrap_or, if◌then◌else◌, String, string_eq, PartialEq,
  not,
}
use coapum.HashMap
use coapum.HashMap.{HashMap}
use coapum.Json.{Value, null, value_eq}
use coapum.Observer.Pointer.{JsonPointer}
use coapum.Observer.Merge.{path_to_json, merge_json}
use coapum.Observer.Channels
use coapum.Observer.Channels.{ObserverChannels, ObserverValue}

pub record MemObserver (N S : Type 0) : Type 0 where
  pub db : HashMap String (Value N)
  pub channels : ObserverChannels S

module _ {N S : Type 0} where
  unfoldable pub new : MemObserver N S
  unfolding Channels.new
  new = record { db = []; channels = Channels.new }

  unfoldable pub register : String → String → S → MemObserver N S → MemObserver N S
  register device_id path sender o = record o {
    channels = Channels.register device_id path sender o.channels;
  }

  unfoldable pub unregister : String → String → MemObserver N S → MemObserver N S
  unregister device_id path o = record o {
    channels = (Channels.unregister device_id path o.channels).1;
  }

  unfoldable pub unregister_all : MemObserver N S → MemObserver N S
  unregister_all o = record o { channels = Channels.unregister_all o.channels }

  unfoldable pub unregister_device : String → MemObserver N S → MemObserver N S
  unregister_device device_id o = record o {
    channels = (Channels.unregister_device device_id o.channels).1;
  }

  unfoldable pub clear : String → MemObserver N S → MemObserver N S
  clear device_id o = record o { db = HashMap.remove device_id o.db }

  unfoldable pub observer_count : String → MemObserver N S → ℕ
  observer_count device_id o = Channels.device_observer_count device_id o.channels

module _ {N S : Type 0} ⦃e : PartialEq N⦄ (json : JsonPointer N) where
  -- The notifications that are offered, and the observer after the write.
  unfoldable pub write :
      String → String → Value N → MemObserver N S → List (S × ObserverValue N) × MemObserver N S
  write device_id path payload o =
      let new_value = path_to_json path payload in
      let current_value = unwrap_or (HashMap.get device_id o.db) null in
      let value =
        if not (value_eq current_value null)
        then merge_json current_value new_value
        else new_value in
      (
        Channels.notify json device_id current_value value o.channels,
        record o { db = HashMap.insert device_id value o.db },
      )

  unfoldable pub read : String → String → MemObserver N S → Option (Value N)
  read device_id path o = elim (HashMap.get device_id o.db) [
    | none ↦ none
    | some value ↦ json.pointer path value
  ]

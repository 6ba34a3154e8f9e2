-- ===== src/Observer/Tests.antt =====
-- Runs of src/observer, and its theorems at concrete inputs.
use coapum.Prelude.{
  All, ℕ, ◌≤◌, ◌≡◌, ◌≢◌, ◌↔◌, refl, some, [], ◌∷◌, String, codes, nat_eq, arith, length,
}
use coapum.Samples.Pointer.{objects_only, follow}
use coapum.HashMap
use coapum.Json
use coapum.Json.{Value, null, number, object, empty, entry}
use coapum.Str.{components, join, split}
use coapum.Str.Split.{absolute}
use coapum.Observer.PathValidation.{validate_observer_path, ok}
use coapum.Observer.PathValidation.Laws.{IsAllowed, validate_observer_path-eq-ok_iff}
use coapum.Observer.Merge.{merge_json}
use coapum.Observer.Merge.Laws.{at_path, merged}
use coapum.Observer.Channels.{ObserverChannels, normalize_json_pointer}
use coapum.Observer.Channels.Registry.{
  registers, apply, expected, registered, IsValid, apply-refines,
}
use coapum.Observer.Channels.Notify.{sent_for}
use coapum.Observer.Memory.{MemObserver, write, read}
use coapum.Observer.Memory.Laws.{stored, read-write, write_notifies, root_observer_silent}

abbrev temp : String
temp = codes "temp"

abbrev device : String
device = codes "d1"

abbrev state : Value ℕ
state = object (entry temp (number 20) empty)

abbrev table : ObserverChannels ℕ
table = record {
  channels = (device, (codes "/temp", 7) ∷ (codes "/", 8) ∷ []) ∷ [];
  notification_timeout = 1;
}

abbrev observer : MemObserver ℕ ℕ
observer = record { db = (device, state) ∷ []; channels = table }

table-IsValid : IsValid table
unfolding HashMap.get
table-IsValid = record { distinct = (refl, tt); tables = ((refl, (refl, (refl, tt))), tt) }

device_ne_temp : device ≢ temp
device_ne_temp e = ground arith

validate_observer_path-eq-ok_iff_example :
    (validate_observer_path (codes "a//b/") ≡ ok (codes "/a/b")) ↔ (
      (codes "a//b/" ≢ [])
      × All IsAllowed (codes "a//b/")
      × (length (components (codes "a//b/")) ≤ 10)
      × (codes "/a/b" ≡ absolute (components (codes "a//b/"))))
validate_observer_path-eq-ok_iff_example =
    validate_observer_path-eq-ok_iff (codes "a//b/") (codes "/a/b")

apply-refines_example :
    registered device (codes "/a") (apply (registers device (codes "/a") 9) table)
    ≡ expected
        (registers device (codes "/a") 9)
        device
        (codes "/a")
        (registered device (codes "/a") table)
apply-refines_example = apply-refines (registers device (codes "/a") 9) device (codes "/a") table

other : device ≢ codes "d2"
other e = ground arith

temp_changed : follow (codes "/temp") state ≢ some (number 21)
unfolding follow at_path Json.get split
temp_changed e = ground arith

gone :
    follow (normalize_json_pointer (codes "/temp")) state
    ≢ follow (normalize_json_pointer (codes "/temp")) null
unfolding follow at_path Json.get split normalize_json_pointer
gone e = ground arith

read-write_example :
    read objects_only device
      (absolute (temp ∷ []))
      (write objects_only device temp (number 21) observer).1
    ≡ some (merged (at_path (temp ∷ []) (stored device observer)) (number 21))
unfolding components split
read-write_example =
    read-write objects_only device temp (number 21) observer temp [] refl (omega arith)

write_notifies_example :
    sent_for (absolute (temp ∷ [])) (write objects_only device temp (number 21) observer).0
    ≡ (7, record { value = number 21; path = absolute (temp ∷ []) }) ∷ []
unfolding components split registered HashMap.get absolute join at_path Json.get merge_json
write_notifies_example =
    write_notifies objects_only device temp (number 21) observer temp [] 7 refl (omega arith)
      table-IsValid refl temp_changed

root_observer_silent_example :
    sent_for (codes "/") (write objects_only device temp (number 21) observer).0 ≡ []
unfolding components split Json.get HashMap.get
root_observer_silent_example =
    root_observer_silent objects_only device temp (number 21) observer temp []
      (entry temp (number 20) empty) refl table-IsValid refl refl

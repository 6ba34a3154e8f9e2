-- ===== src/Observer/Sled/Tests.antt =====
-- The theorems on the sled observer at concrete inputs: a text is the value itself, and a database is
-- a map, or one that fails to be written.
use coapum.Prelude.{
  ℕ, ◌≡◌, refl, sym, Option, none, some, [], ◌∷◌, String, string_eq, nat_eq, codes, Bool,
  if◌then◌else◌, ◌==◌, Result, ok, err,
}
use coapum.HashMap
use coapum.HashMap.{HashMap}
use coapum.HashMap.Laws.{get-insert, get-remove}
use coapum.Json.{Value, number, object, empty, entry}
use coapum.Samples.Pointer.{objects_only}
use coapum.Observer.Channels.{ObserverChannels}
use coapum.Observer.Memory
use coapum.Observer.Memory.{MemObserver}
use coapum.Observer.Persistent.{JsonCodec}
use coapum.Observer.Sled.{Sled, SledObserver, sled_error, decoded, load, write, save}
use coapum.Observer.Sled.Laws.{Models, write-refines, write_fails}

abbrev codec : JsonCodec ℕ ℕ
codec = record { Text = Value ℕ; to_text = ok; from_text = ok }

choice :
    {A : Type 0} (b : Bool) (x y : A)
    → (Path (Result ℕ A) (ok (if b then x else y)) (if b then ok x else ok y))
choice Bool.true x y = refl
choice Bool.false x y = refl

abbrev Database : Type 0
Database = HashMap String (Value ℕ)

inserted :
    (k j : String) (t : Value ℕ) (m after : Database)
    → Path (Result ℕ Database) (ok (HashMap.insert k t m)) (ok after)
    → Path
        (Result ℕ (Option (Value ℕ)))
        (ok (HashMap.get j after))
        (if k == j then ok (some t) else ok (HashMap.get j m))
inserted k j t m after e =
    let same : HashMap.insert k t m ≡ after = cc in
    rw (← same, get-insert) (choice (k == j) (some t) (HashMap.get j m))

removed :
    (k j : String) (m after : Database)
    → Path (Result ℕ Database) (ok (HashMap.remove k m)) (ok after)
    → Path
        (Result ℕ (Option (Value ℕ)))
        (ok (HashMap.get j after))
        (if k == j then ok none else ok (HashMap.get j m))
removed k j m after e =
    let same : HashMap.remove k m ≡ after = cc in
    rw (← same, get-remove) (choice (k == j) none (HashMap.get j m))

abbrev maps : Sled ℕ (Value ℕ)
maps = record {
  Db = Database;
  get = λ k m. ok (HashMap.get k m);
  insert = λ k t m. ok (HashMap.insert k t m);
  remove = λ k m. ok (HashMap.remove k m);
  get-insert = inserted;
  get-remove = removed;
}

never : (after : Database) → Path (Result ℕ Database) (err 28) (ok after) → ⊥
never after e = cc

-- A database that cannot be written.
abbrev full : Sled ℕ (Value ℕ)
full = record {
  Db = Database;
  get = λ k m. ok (HashMap.get k m);
  insert = λ k t m. err 28;
  remove = λ k m. err 28;
  get-insert = λ k j t m after e. absurd (never after e);
  get-remove = λ k j m after e. absurd (never after e);
}

abbrev device : String
device = codes "d1"

abbrev channels : ObserverChannels ℕ
channels = record { channels = (device, (codes "/temp", 7) ∷ []) ∷ []; notification_timeout = 1 }

abbrev state : Database
state = (device, object (entry (codes "temp") (number 20) empty)) ∷ []

abbrev observer : SledObserver Database ℕ
observer = record { db = state; is_watching = Bool.true; channels = channels }

abbrev memory : MemObserver ℕ ℕ
memory = record { db = state; channels = channels }

-- The observer after a write.
abbrev later : SledObserver Database ℕ
later = (write objects_only codec maps device (codes "/temp") (number 21) observer).1.1

maps-Models : Models codec maps observer memory
unfolding load
maps-Models = record { same_state = λ j. loaded (HashMap.get j state); same_channels = refl }
  where
    loaded : (o : Option (Value ℕ)) → decoded codec maps (ok o) ≡ ok o
    loaded none = refl
    loaded (some v) = refl

full-Models : Models codec full observer memory
unfolding load
full-Models = record { same_state = λ j. loaded (HashMap.get j state); same_channels = refl }
  where
    loaded : (o : Option (Value ℕ)) → decoded codec full (ok o) ≡ ok o
    loaded none = refl
    loaded (some v) = refl

write-refines_example :
    ((write objects_only codec maps device (codes "/temp") (number 21) observer).0
      ≡ (Memory.write objects_only device (codes "/temp") (number 21) memory).0)
    × Models codec maps later
        (Memory.write objects_only device (codes "/temp") (number 21) memory).1
unfolding write save
write-refines_example =
    write-refines objects_only codec maps device (codes "/temp") observer memory maps-Models
      (number 21) later (λ t e. sym e) refl

write_fails_example :
    ((write objects_only codec full device (codes "/temp") (number 21) observer).0
      ≡ (Memory.write objects_only device (codes "/temp") (number 21) memory).0)
    × (observer ≡ observer)
unfolding write save
write_fails_example =
    write_fails objects_only codec full device (codes "/temp") observer memory full-Models
      (number 21) (sled_error 28) observer refl

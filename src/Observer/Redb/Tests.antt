-- ===== src/Observer/Redb/Tests.antt =====
-- The theorems on the redb observer at concrete inputs: a text is the value itself, and a database and
-- its transactions are maps.
use coapum.Prelude.{
  ℕ, ◌≡◌, refl, sym, Option, none, some, [], ◌∷◌, String, string_eq, nat_eq, codes, true,
  if◌then◌else◌, ◌==◌, Result, ok,
}
use coapum.HashMap
use coapum.HashMap.{HashMap}
use coapum.HashMap.Laws.{get-insert, get-remove}
use coapum.Json.{Value, number, object, empty, entry}
use coapum.Samples.Pointer.{objects_only}
use coapum.Observer.Channels.{ObserverChannels}
use coapum.Observer.Memory
use coapum.Observer.Memory.{MemObserver}
use coapum.Observer.Persistent.{JsonCodec}
use coapum.Observer.Redb.{Redb, RedbObserver, decoded, fetch, load, write, save}
use coapum.Observer.Redb.Laws.{Models, write-Models}

abbrev codec : JsonCodec ℕ ℕ
codec = record { Text = Value ℕ; to_text = ok; from_text = ok }

abbrev Database : Type 0
Database = HashMap String (Value ℕ)

-- Four steps of a transaction, of which the third changes the map.
changed_by :
    (change : Database → Database) (db after begun opened changed : Database)
    → Path (Result ℕ Database) (ok db) (ok begun)
    → Path (Result ℕ Database) (ok begun) (ok opened)
    → Path (Result ℕ Database) (ok (change opened)) (ok changed)
    → Path (Result ℕ Database) (ok changed) (ok after)
    → after ≡ change db
changed_by change db after begun opened changed e1 e2 e3 e4 = cc

inserted :
    (k j : String) (x : Value ℕ) (db after : Database) (o : Option (Value ℕ))
    → after ≡ HashMap.insert k x db
    → some (HashMap.get j db) ≡ some o
    → some (HashMap.get j after) ≡ some (if k == j then some x else o)
inserted k j x db after o e h =
    let same : HashMap.get j db ≡ o = cc in rw (e, get-insert, same) refl

removed :
    (k j : String) (db after : Database) (o : Option (Value ℕ))
    → after ≡ HashMap.remove k db
    → some (HashMap.get j db) ≡ some o
    → some (HashMap.get j after) ≡ some (if k == j then none else o)
removed k j db after o e h = let same : HashMap.get j db ≡ o = cc in rw (e, get-remove, same) refl

abbrev maps : Redb ℕ (Value ℕ)
maps = record {
  Db = Database;
  ReadTxn = Database;
  Table = Database;
  WriteTxn = Database;
  begin_read = ok;
  open_table = ok;
  get = λ k m. ok (HashMap.get k m);
  begin_write = ok;
  open_table_mut = ok;
  insert = λ k x m. ok (HashMap.insert k x m);
  remove = λ k m. ok (HashMap.remove k m);
  commit = ok;
  get-insert = λ k j x db after begun opened changed o e1 e2 e3 e4 h.
      inserted k j x db after o
        (changed_by (HashMap.insert k x) db after begun opened changed e1 e2 e3 e4) h;
  get-remove = λ k j db after begun opened changed o e1 e2 e3 e4 h.
      removed k j db after o
        (changed_by (HashMap.remove k) db after begun opened changed e1 e2 e3 e4) h;
}

abbrev device : String
device = codes "d1"

abbrev channels : ObserverChannels ℕ
channels = record { channels = (device, (codes "/temp", 7) ∷ []) ∷ []; notification_timeout = 1 }

abbrev state : Database
state = (device, object (entry (codes "temp") (number 20) empty)) ∷ []

abbrev observer : RedbObserver Database ℕ
observer = record { db = state; is_watching = true; channels = channels }

abbrev memory : MemObserver ℕ ℕ
memory = record { db = state; channels = channels }

-- The observer after a write.
abbrev later : RedbObserver Database ℕ
later = (write objects_only codec maps device (codes "/temp") (number 21) observer).1.1

maps-Models : Models codec maps observer memory
unfolding load fetch
maps-Models = record { same_state = λ j. loaded (HashMap.get j state); same_channels = refl }
  where
    loaded : (o : Option (Value ℕ)) → decoded codec maps o ≡ ok o
    loaded none = refl
    loaded (some v) = refl

write-Models_example :
    ((write objects_only codec maps device (codes "/temp") (number 21) observer).0
      ≡ (Memory.write objects_only device (codes "/temp") (number 21) memory).0)
    × Models codec maps later
        (Memory.write objects_only device (codes "/temp") (number 21) memory).1
unfolding write save fetch
write-Models_example =
    write-Models objects_only codec maps device (codes "/temp") observer memory maps-Models
      (number 21) later (λ t e. sym e) refl

-- ===== src/Credential/Memory/Laws.antt =====
-- What the memory store finds after it was filled.
use coapum.Prelude.{
  ◌≡◌, refl, ◌∙◌, true, Option, none, some, [], ◌∷◌, String, Bytes, string_eq, list_beq_iff, arith,
}
use coapum.HashMap
use coapum.HashMap.{HashMap, HasDistinctKeys}
use coapum.HashMap.Laws.{get-insert}
use coapum.Credential.{ClientEntry, PskEntry}
use coapum.Credential.Memory.{
  MemoryCredentialStore, enabled_metadata, from_each, from_clients, lookup_psk,
}

abbrev filled : Option Bytes → Option ClientEntry → Option ClientEntry
filled none old = old
filled (some key) old = some (record { key = key; metadata = enabled_metadata })

get-from_each :
    (i : String) (clients : HashMap String Bytes) (store : MemoryCredentialStore)
    → HasDistinctKeys clients
    → HashMap.get i (from_each store clients) ≡ filled (HashMap.get i clients) (HashMap.get i store)
unfolding from_each HashMap.get
get-from_each i [] store d = refl
get-from_each i ((j, key) ∷ clients) store (fresh, d) =
    let entry : ClientEntry = record { key = key; metadata = enabled_metadata } in
    get-from_each i clients (HashMap.insert j entry store) d
    ∙ ground (arith, get-insert j i entry store, list_beq_iff j i, fresh)

abbrev pub enabled_entry : Option Bytes → Option PskEntry
enabled_entry none = none
enabled_entry (some key) = some (record { key = key; enabled = true })

-- A store that is filled from a map of keys, in whatever order the map iterates, finds for every
-- identity the key of the map, enabled, and finds nothing for the others.
pub lookup_psk-from_clients :
    (i : String) (clients : HashMap String Bytes)
    → HasDistinctKeys clients
    → lookup_psk i (from_clients clients) ≡ enabled_entry (HashMap.get i clients)
unfolding lookup_psk from_clients
lookup_psk-from_clients i clients d =
    rw (get-from_each i clients [] d, lookup_psk) (after (HashMap.get i clients))
  where
    after :
        (o : Option Bytes)
        → (elim (filled o (HashMap.get i [])) [
          | none ↦ none
          | some entry ↦ some (record { key = entry.key; enabled = entry.metadata.enabled })
        ])
          ≡ enabled_entry o
    after none = unfold HashMap.get in refl
    after (some key) = refl

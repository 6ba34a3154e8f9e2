-- ===== src/Credential/Memory.antt =====
-- `MemoryCredentialStore` of src/credential/memory.rs. The lock around the map is held by one call
-- at a time, so a call is one step on the map. `Infallible` has no value, so no call fails.
pub mod Laws
use coapum.Prelude.{
  Bool, true, false, Option, none, some, List, [], ◌∷◌, String, Bytes, string_eq, is_some,
  unwrap_or,
}
use coapum.HashMap
use coapum.HashMap.{HashMap, keys}
use coapum.Credential.{
  ClientMetadata, ClientEntry, PskEntry, ClientInfo, CredentialStore, Result, ok,
}

abbrev pub MemoryCredentialStore : Type 0
MemoryCredentialStore = HashMap String ClientEntry

unfoldable pub new : MemoryCredentialStore
new = []

-- `ClientMetadata { enabled: true, ..Default::default() }`
abbrev pub enabled_metadata : ClientMetadata
enabled_metadata = record {
  name = none;
  description = none;
  enabled = true;
  tags = [];
  custom = [];
}

-- The loop of `from_clients`, over the map in its order of iteration.
from_each : MemoryCredentialStore → List (String × Bytes) → MemoryCredentialStore
from_each store [] = store
from_each store ((identity, key) ∷ clients) =
    from_each (HashMap.insert identity (record { key = key; metadata = enabled_metadata }) store)
      clients

unfoldable pub from_clients : HashMap String Bytes → MemoryCredentialStore
unfolding from_each
from_clients clients = from_each [] clients

unfoldable pub lookup_psk : String → MemoryCredentialStore → Option PskEntry
lookup_psk identity store = elim (HashMap.get identity store) [
  | none ↦ none
  | some entry ↦ some (record { key = entry.key; enabled = entry.metadata.enabled })
]

unfoldable pub add_client :
    String → Bytes → Option ClientMetadata → MemoryCredentialStore → MemoryCredentialStore
add_client identity key metadata store =
    HashMap.insert identity (record { key = key; metadata = unwrap_or metadata enabled_metadata })
      store

unfoldable pub remove_client : String → MemoryCredentialStore → Bool × MemoryCredentialStore
remove_client identity store = (is_some (HashMap.get identity store), HashMap.remove identity store)

unfoldable pub update_key : String → Bytes → MemoryCredentialStore → Bool × MemoryCredentialStore
update_key identity key store = elim (HashMap.get identity store) [
  | none ↦ (false, store)
  | some entry ↦ (true, HashMap.insert identity (record entry { key = key }) store)
]

unfoldable pub update_metadata :
    String → ClientMetadata → MemoryCredentialStore → Bool × MemoryCredentialStore
update_metadata identity metadata store = elim (HashMap.get identity store) [
  | none ↦ (false, store)
  | some entry ↦ (true, HashMap.insert identity (record entry { metadata = metadata }) store)
]

abbrev with_enabled : Bool → ClientEntry → ClientEntry
with_enabled enabled entry = record entry {
  metadata = record (entry.metadata) { enabled = enabled };
}

unfoldable pub set_enabled : String → Bool → MemoryCredentialStore → Bool × MemoryCredentialStore
set_enabled identity enabled store = elim (HashMap.get identity store) [
  | none ↦ (false, store)
  | some entry ↦ (true, HashMap.insert identity (with_enabled enabled entry) store)
]

unfoldable pub list_clients : MemoryCredentialStore → List String
list_clients store = keys store

unfoldable pub get_client : String → MemoryCredentialStore → Option ClientInfo
get_client identity store = elim (HashMap.get identity store) [
  | none ↦ none
  | some entry ↦
      some (record {
        identity = identity;
        enabled = entry.metadata.enabled;
        metadata = entry.metadata;
      })
]

-- The store as an implementation of the interface.
abbrev pub memory_store : CredentialStore MemoryCredentialStore ⊥
memory_store = record {
  lookup_psk = λ i c. ok (lookup_psk i c);
  add_client = λ i k m c. (ok tt, add_client i k m c);
  remove_client = λ i c. let (b, c') = remove_client i c in (ok b, c');
  update_key = λ i k c. let (b, c') = update_key i k c in (ok b, c');
  update_metadata = λ i m c. let (b, c') = update_metadata i m c in (ok b, c');
  set_enabled = λ i b c. let (r, c') = set_enabled i b c in (ok r, c');
  list_clients = λ c. ok (list_clients c);
}

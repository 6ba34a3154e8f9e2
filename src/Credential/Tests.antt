-- ===== src/Credential/Tests.antt =====
-- Runs of src/credential, and its theorems at concrete inputs.
use coapum.Prelude.{
  ◌≡◌, ◌↔◌, refl, true, false, none, some, [], ◌∷◌, String, Bytes, codes, string_eq,
}
use coapum.HashMap
use coapum.HashMap.{HashMap}
use coapum.Utf8.{from_utf8, lead}
use coapum.Credential.{ClientEntry}
use coapum.Credential.Memory.{MemoryCredentialStore, memory_store, enabled_metadata}
use coapum.Credential.Commands.{
  add_client, remove_client, set_client_enabled, process_client_command,
}
use coapum.Credential.Commands.Laws.{expected, process_client_command-refines}
use coapum.Credential.Resolver.{CapturingResolver, resolve}
use coapum.Credential.Resolver.Laws.{resolve-eq-some_iff, resolve_revoked}

abbrev device : String
device = codes "d1"

abbrev key : Bytes
key = 1 ∷ 2 ∷ []

abbrev two_clients : HashMap String Bytes
two_clients = (device, key) ∷ (codes "d2", 3 ∷ []) ∷ []

abbrev resolver : CapturingResolver MemoryCredentialStore
resolver = record {
  store = (device, record { key = key; metadata = enabled_metadata }) ∷ [];
  last_identity = none;
}

device_decoded : from_utf8 device ≡ some device
unfolding from_utf8 lead
device_decoded = refl

two_clients-HasDistinctKeys : HashMap.HasDistinctKeys two_clients
unfolding HashMap.get
two_clients-HasDistinctKeys = (refl, (refl, tt))

process_client_command-refines_example :
    HashMap.get device
      (process_client_command memory_store (add_client (codes "d2") key none) resolver.store).1
    ≡ expected (add_client (codes "d2") key none) device (HashMap.get device resolver.store)
process_client_command-refines_example =
    process_client_command-refines (add_client (codes "d2") key none) device resolver.store

resolve-eq-some_iff_example : ((resolve memory_store device resolver).0 ≡ some key) ↔ (
    (hint : String) × (entry : ClientEntry) × (from_utf8 device ≡ some hint)
    × (HashMap.get hint resolver.store ≡ some entry)
    × (entry.metadata.enabled ≡ true)
    × (entry.key ≡ key))
resolve-eq-some_iff_example = resolve-eq-some_iff device key resolver

resolve_revoked_example :
    ((resolve memory_store device (record resolver {
      store = (process_client_command memory_store (remove_client device) resolver.store).1;
    })).0
      ≡ none)
    × ((resolve memory_store device (record resolver {
      store =
          (process_client_command memory_store (set_client_enabled device false) resolver.store).1;
    })).0
        ≡ none)
resolve_revoked_example = resolve_revoked device device resolver device_decoded

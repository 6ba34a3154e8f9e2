-- ===== src/Credential/Commands/Laws.antt =====
-- What each client command does to the memory store, and to the keys that a handshake is given.
use coapum.Prelude.{
  ◌≡◌, refl, Option, none, some, String, string_eq, list_beq_iff, if◌then◌else◌, ◌==◌, arith,
  unwrap_or, Option-cases, inl, inr,
}
use coapum.HashMap
use coapum.HashMap.{HashMap}
use coapum.HashMap.Laws.{get-insert, get-remove}
use coapum.Credential.{ClientEntry}
use coapum.Credential.Memory
use coapum.Credential.Memory.{MemoryCredentialStore, memory_store, enabled_metadata}
use coapum.Credential.Commands.{
  ClientCommand, add_client, remove_client, update_key, update_metadata, set_client_enabled,
  list_clients, disconnect_client, process_client_command,
}

-- The specification: what a command makes of the entry of an identity. An update of an identity
-- that is not there makes no entry.
abbrev pub expected : ClientCommand → String → Option ClientEntry → Option ClientEntry
expected (add_client i key metadata) j old =
    if i == j
    then some (record { key = key; metadata = unwrap_or metadata enabled_metadata })
    else old
expected (remove_client i) j old = if i == j then none else old
expected (update_key i key) j none = none
expected (update_key i key) j (some entry) =
    if i == j then some (record entry { key = key }) else some entry
expected (update_metadata i metadata) j none = none
expected (update_metadata i metadata) j (some entry) =
    if i == j then some (record entry { metadata = metadata }) else some entry
expected (set_client_enabled i enabled) j none = none
expected (set_client_enabled i enabled) j (some entry) =
    if i == j
    then some (record entry { metadata = record (entry.metadata) { enabled = enabled } })
    else some entry
expected list_clients j old = old
expected (disconnect_client i) j old = old

-- Every command changes the entry of its identity as it says, and no other entry.
pub process_client_command-refines :
    (cmd : ClientCommand) (j : String) (c : MemoryCredentialStore)
    → HashMap.get j (process_client_command memory_store cmd c).1 ≡ expected cmd j (HashMap.get j c)
unfolding process_client_command Memory.add_client Memory.remove_client Memory.update_key
    Memory.update_metadata Memory.set_enabled
process_client_command-refines (add_client i key metadata) j c =
    get-insert i j (record { key = key; metadata = unwrap_or metadata enabled_metadata }) c
process_client_command-refines (remove_client i) j c = get-remove i j c
process_client_command-refines (update_key i key) j c = elim (Option-cases (HashMap.get i c)) [
  | inl e ↦ ground (arith, e, list_beq_iff i j)
  | inr (x, e) ↦ ground (arith, e, list_beq_iff i j, get-insert i j (record x { key = key }) c)
]
process_client_command-refines (update_metadata i metadata) j c =
    elim (Option-cases (HashMap.get i c)) [
      | inl e ↦ ground (arith, e, list_beq_iff i j)
      | inr (x, e) ↦
          ground (arith, e, list_beq_iff i j, get-insert i j (record x { metadata = metadata }) c)
    ]
process_client_command-refines (set_client_enabled i enabled) j c =
    elim (Option-cases (HashMap.get i c)) [
      | inl e ↦ ground (arith, e, list_beq_iff i j)
      | inr (x, e) ↦ ground (
        arith,
        e,
        list_beq_iff i j,
        get-insert i j (record x { metadata = record (x.metadata) { enabled = enabled } }) c,
      )
    ]
process_client_command-refines list_clients j c = refl
process_client_command-refines (disconnect_client i) j c = refl

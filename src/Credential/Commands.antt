-- ===== src/Credential/Commands.antt =====
-- The commands of a `ClientManager` (src/router/mod.rs) and `process_client_command` of
-- src/serve.rs, which runs one of them against a store.
pub mod Laws
use coapum.Prelude.{Bool, Option, none, some, List, [], String, Bytes}
use coapum.Credential.{ClientMetadata, CredentialStore, Result, ok, err}

-- The sender that a `ListClients` command carries for its answer is not modelled: the answer is
-- part of what processing the command returns.
pub data ClientCommand : Type 0 where
  add_client : String → Bytes → Option ClientMetadata → ClientCommand
  remove_client : String → ClientCommand
  update_key : String → Bytes → ClientCommand
  update_metadata : String → ClientMetadata → ClientCommand
  set_client_enabled : String → Bool → ClientCommand
  list_clients : ClientCommand
  disconnect_client : String → ClientCommand

-- What a command sends on: an answer to `ListClients`, or an identity to disconnect.
pub data Output : Type 0 where
  silent : Output
  listed : List String → Output
  disconnect : String → Output

-- An error of the store is logged, and for `ListClients` answered by the empty list.
abbrev answer : {E : Type 0} → Result E (List String) → Output
answer (ok clients) = listed clients
answer (err _) = listed []

module _ {C E : Type 0} (store : CredentialStore C E) where
  unfoldable pub process_client_command : ClientCommand → C → Output × C
  process_client_command (add_client identity key metadata) c =
      (silent, (store.add_client identity key metadata c).1)
  process_client_command (remove_client identity) c = (silent, (store.remove_client identity c).1)
  process_client_command (update_key identity key) c = (silent, (store.update_key identity key c).1)
  process_client_command (update_metadata identity metadata) c =
      (silent, (store.update_metadata identity metadata c).1)
  process_client_command (set_client_enabled identity enabled) c =
      (silent, (store.set_enabled identity enabled c).1)
  process_client_command list_clients c = (answer (store.list_clients c), c)
  process_client_command (disconnect_client identity) c = (disconnect identity, c)

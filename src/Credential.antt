-- ===== src/Credential.antt =====
-- src/credential/mod.rs: the interface of a credential store, and what it returns. The metadata
-- and the entries are those of src/router/mod.rs.
pub mod Memory
pub mod Resolver
pub mod Commands
mod Tests
use coapum.Prelude.{Bool, Option, List, String, Bytes}
pub use coapum.Prelude.{Result, ok, err}
use coapum.HashMap.{HashMap}

pub record ClientMetadata : Type 0 where
  pub name : Option String
  pub description : Option String
  pub enabled : Bool
  pub tags : List String
  pub custom : HashMap String String

pub record ClientEntry : Type 0 where
  pub key : Bytes
  pub metadata : ClientMetadata

pub record PskEntry : Type 0 where
  pub key : Bytes
  pub enabled : Bool

pub record ClientInfo : Type 0 where
  pub identity : String
  pub enabled : Bool
  pub metadata : ClientMetadata

-- A store with states `C` and errors `E`; a call that may write returns the state after it.
pub record CredentialStore (C E : Type 0) : Type 0 where
  pub lookup_psk : String → C → Result E (Option PskEntry)
  pub add_client : String → Bytes → Option ClientMetadata → C → Result E (Unit {0}) × C
  pub remove_client : String → C → Result E Bool × C
  pub update_key : String → Bytes → C → Result E Bool × C
  pub update_metadata : String → ClientMetadata → C → Result E Bool × C
  pub set_enabled : String → Bool → C → Result E Bool × C
  pub list_clients : C → Result E (List String)

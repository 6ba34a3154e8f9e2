-- ===== src/Credential/Resolver.antt =====
-- src/credential/resolver.rs: the keys that the DTLS handshake is given.
pub mod Laws
use coapum.Prelude.{Bool, true, false, Option, none, some, String, Bytes, string_eq, if◌then◌else◌}
use coapum.HashMap
use coapum.HashMap.{HashMap}
use coapum.Utf8.{from_utf8}
use coapum.Credential.{CredentialStore, PskEntry, Result, ok, err}

pub record CapturingResolver (C : Type 0) : Type 0 where
  pub store : C
  pub last_identity : Option String

unfoldable pub new : {C : Type 0} → C → CapturingResolver C
new store = record { store = store; last_identity = none }

unfoldable pub take_last_identity :
    {C : Type 0} → CapturingResolver C → Option String × CapturingResolver C
take_last_identity r = (r.last_identity, record r { last_identity = none })

module _ {C E : Type 0} (store : CredentialStore C E) where
  found :
      String → Result E (Option PskEntry) → CapturingResolver C → Option Bytes × CapturingResolver C
  found hint_str (ok (some entry)) r =
      if entry.enabled
      then (some entry.key, record r { last_identity = some hint_str })
      else (none, r)
  found hint_str (ok none) r = (none, r)
  found hint_str (err _) r = (none, r)

  unfoldable pub resolve : Bytes → CapturingResolver C → Option Bytes × CapturingResolver C
  unfolding found
  resolve identity r = elim (from_utf8 identity) [
    | none ↦ (none, r)
    | some hint_str ↦ found hint_str (store.lookup_psk hint_str r.store) r
  ]

pub record MapResolver : Type 0 where
  pub keys : HashMap String Bytes

unfoldable pub resolve_in_map : Bytes → MapResolver → Option Bytes
resolve_in_map identity r = elim (from_utf8 identity) [
  | none ↦ none
  | some hint ↦ HashMap.get hint r.keys
]

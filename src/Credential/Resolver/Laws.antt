-- ===== src/Credential/Resolver/Laws.antt =====
-- Which clients the handshake accepts, over the memory store.
use mathlib.Core.Option.{none-ne-some}
use coapum.Prelude.{
  is_some, ◌≡◌, ◌↔◌, refl, true, false, Option, none, some, String, Bytes, string_eq, beq_refl,
  arith, Option-cases, inl, inr, if◌then◌else◌,
}
use coapum.HashMap
use coapum.Utf8.{from_utf8}
use coapum.Credential.{ClientEntry, ok}
use coapum.Credential.Memory
use coapum.Credential.Memory.{MemoryCredentialStore, memory_store}
use coapum.Credential.Commands.{remove_client, set_client_enabled, process_client_command}
use coapum.Credential.Commands.Laws.{process_client_command-refines, expected}
use coapum.Credential.Resolver.{CapturingResolver, resolve, found}

-- What the handshake is given for an identity, by the entry that the store has.
abbrev granted :
    String
    → Option ClientEntry
    → CapturingResolver MemoryCredentialStore
    → Option Bytes × CapturingResolver MemoryCredentialStore
granted hint none r = (none, r)
granted hint (some entry) r =
    if entry.metadata.enabled
    then (some entry.key, record r { last_identity = some hint })
    else (none, r)

resolve-granted :
    (identity : Bytes) (hint : String) (r : CapturingResolver MemoryCredentialStore)
    → from_utf8 identity ≡ some hint
    → resolve memory_store identity r ≡ granted hint (HashMap.get hint r.store) r
unfolding resolve Memory.lookup_psk
resolve-granted identity hint r e = rw (e, resolve) (after (HashMap.get hint r.store))
  where
    after :
        (o : Option ClientEntry)
        → found memory_store hint
            (ok (elim o [
              | none ↦ none
              | some entry ↦ some (record { key = entry.key; enabled = entry.metadata.enabled })
            ]))
            r
          ≡ granted hint o r
    after none = refl
    after (some entry) = refl

-- The resolver gives a key exactly when the identity is well-formed UTF-8 and names a client that
-- is enabled and has that key.
pub resolve-eq-some_iff :
    (identity key : Bytes) (r : CapturingResolver MemoryCredentialStore)
    → ((resolve memory_store identity r).0 ≡ some key) ↔ (
        (hint : String) × (entry : ClientEntry) × (from_utf8 identity ≡ some hint)
        × (HashMap.get hint r.store ≡ some entry)
        × (entry.metadata.enabled ≡ true)
        × (entry.key ≡ key))
resolve-eq-some_iff identity key r = (to, from)
  where
    to :
        (resolve memory_store identity r).0 ≡ some key
        → (hint : String) × (entry : ClientEntry) × (from_utf8 identity ≡ some hint)
          × (HashMap.get hint r.store ≡ some entry)
          × (entry.metadata.enabled ≡ true)
          × (entry.key ≡ key)
    to h = elim (Option-cases (from_utf8 identity)) [
      | inl e ↦ unfold resolve in absurd (none-ne-some key (rw (e, resolve) at h))
      | inr (hint, e) ↦ elim (Option-cases (HashMap.get hint r.store)) [
        | inl f ↦ absurd (none-ne-some key (rw (resolve-granted identity hint r e, f) at h))
        | inr (entry, f) ↦
            let h' = rw (resolve-granted identity hint r e, f) at h in
            (hint, entry, e, f, ground (arith, h'), ground (arith, h'))
      ]
    ]

    from :
        ((hint : String) × (entry : ClientEntry) × (from_utf8 identity ≡ some hint)
          × (HashMap.get hint r.store ≡ some entry)
          × (entry.metadata.enabled ≡ true)
          × (entry.key ≡ key))
        → (resolve memory_store identity r).0 ≡ some key
    from (hint, entry, e, f, on, k) =
        rw (resolve-granted identity hint r e, f) (ground (arith, on, k))

-- Resolving an identity leaves the store as it is, and captures the identity exactly when a key is
-- given.
pub resolve_captures :
    (identity : Bytes) (hint : String) (r : CapturingResolver MemoryCredentialStore)
    → from_utf8 identity ≡ some hint
    → ((resolve memory_store identity r).1.store ≡ r.store)
      × ((resolve memory_store identity r).1.last_identity
          ≡ (if is_some (resolve memory_store identity r).0 then some hint else r.last_identity))
resolve_captures identity hint r e =
    rw (resolve-granted identity hint r e) (captured (HashMap.get hint r.store))
  where
    captured :
        (o : Option ClientEntry)
        → ((granted hint o r).1.store ≡ r.store)
          × ((granted hint o r).1.last_identity
              ≡ (if is_some (granted hint o r).0 then some hint else r.last_identity))
    captured none = (refl, refl)
    captured (some entry) = ground arith

-- Once a client is removed or disabled, no handshake under its identity is given a key.
pub resolve_revoked :
    (identity : Bytes) (hint : String) (r : CapturingResolver MemoryCredentialStore)
    → from_utf8 identity ≡ some hint
    → ((resolve memory_store identity (record r {
      store = (process_client_command memory_store (remove_client hint) r.store).1;
    })).0
        ≡ none)
      × ((resolve memory_store identity (record r {
        store = (process_client_command memory_store (set_client_enabled hint false) r.store).1;
      })).0
          ≡ none)
resolve_revoked identity hint r e = (
  rw (
    resolve-granted identity hint _ e,
    process_client_command-refines (remove_client hint) hint r.store,
    beq_refl hint,
  ),
  rw
      (
        resolve-granted identity hint _ e,
        process_client_command-refines (set_client_enabled hint false) hint r.store,
      )
      (disabled (HashMap.get hint r.store) _),
)
  where
    disabled :
        (o : Option ClientEntry) (r' : CapturingResolver MemoryCredentialStore)
        → (granted hint (expected (set_client_enabled hint false) hint o) r').0 ≡ none
    disabled none r' = refl
    disabled (some entry) r' = ground (arith, beq_refl hint)

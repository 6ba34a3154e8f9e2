-- ===== src/Serve/Registry/Laws.antt =====
-- Which connections are admitted, and what happens when a device connects again.
use coapum.Prelude.{
  suc, All, Bool-cases, inl, inr, ℕ, ◌-◌, ◌≤◌, ◌≡◌, ◌↔◌, refl, true, false, Option, none, some, [],
  String, string_eq, ltb, arith,
}
use coapum.HashMap
use coapum.HashMap.{HashMap}
use coapum.HashMap.Laws.{get-insert_self, get-remove_self}
use coapum.HashMap.Entries.{insert-All, remove-All}
use coapum.Coap.{SocketAddr}
use coapum.Serve.Registry.{
  ConnectionInfo, Connections, manage_connection, consider, cleanup, disconnect, admit, refuse,
  next_count,
}

module _ {T : Type 0} where
  -- Whether a new connection may take the place of the old one of its identity.
  unfoldable pub MayConnect : ℕ → ℕ → ℕ → Option (ConnectionInfo T) → Type 0
  MayConnect min_interval max_attempts checked none = Unit
  MayConnect min_interval max_attempts checked (some old) =
      (min_interval ≤ checked - old.established_at) × (old.reconnect_count ≤ max_attempts)

  module _ (identity : String) (addr : SocketAddr) (tx : T)
      (min_interval max_attempts checked now : ℕ) (connections : Connections T) where
    consider-allowed_iff :
        (old : Option (ConnectionInfo T))
        → ((consider identity addr tx min_interval max_attempts checked now connections old).allowed
            ≡ true)
          ↔ MayConnect min_interval max_attempts checked old
    unfolding consider admit refuse MayConnect
    consider-allowed_iff none = (λ _. tt, λ _. refl)
    consider-allowed_iff (some old) = (
      λ h. (ground arith, ground arith),
      λ (a, b).
          let late : ltb (checked - old.established_at) min_interval ≡ false = ground arith in
          let few : ltb max_attempts old.reconnect_count ≡ false = ground arith in
          rw (late, few) refl,
    )

    -- A connection is admitted exactly if its identity has none, or has one that is at least
    -- `min_reconnect_interval` old and was reconnected at most `max_reconnect_attempts` times.
    pub manage_connection-allowed_iff :
        ((manage_connection identity addr tx min_interval max_attempts checked now
            connections).allowed
          ≡ true)
        ↔ MayConnect min_interval max_attempts checked (HashMap.get identity connections)
    unfolding manage_connection
    manage_connection-allowed_iff = consider-allowed_iff (HashMap.get identity connections)

    consider-admits :
        (old : Option (ConnectionInfo T))
        → MayConnect min_interval max_attempts checked old
        → HashMap.get identity
            (consider identity addr tx min_interval max_attempts checked now connections
              old).connections
          ≡ some (record {
            sender = tx;
            established_at = now;
            source_addr = addr;
            reconnect_count = next_count old;
          })
    unfolding consider admit refuse MayConnect
    consider-admits none h = get-insert_self identity _ connections
    consider-admits (some old) (a, b) =
        let late : ltb (checked - old.established_at) min_interval ≡ false = ground arith in
        let few : ltb max_attempts old.reconnect_count ≡ false = ground arith in
        rw (late, few) (get-insert_self identity _ connections)

    -- An admitted connection takes the place of the old one in the table, with a count of
    -- reconnections that is one larger, and starts at zero if there was no old one.
    pub manage_connection-admits :
        MayConnect min_interval max_attempts checked (HashMap.get identity connections)
        → HashMap.get identity
            (manage_connection identity addr tx min_interval max_attempts checked now
              connections).connections
          ≡ some (record {
            sender = tx;
            established_at = now;
            source_addr = addr;
            reconnect_count = next_count (HashMap.get identity connections);
          })
    unfolding manage_connection
    manage_connection-admits = consider-admits (HashMap.get identity connections)

  -- An entry of the table with at most one reconnection more than the limit.
  abbrev pub IsBounded : ℕ → String × ConnectionInfo T → Type 0
  IsBounded max_attempts x = x.1.reconnect_count ≤ suc max_attempts

  consider-IsBounded :
      (identity : String) (addr : SocketAddr) (tx : T) (min_interval max_attempts checked now : ℕ)
      (connections : Connections T) (old : Option (ConnectionInfo T))
      → All (IsBounded max_attempts) connections
      → All
          (IsBounded max_attempts)
          (consider identity addr tx min_interval max_attempts checked now connections
            old).connections
  unfolding consider admit refuse
  consider-IsBounded identity addr tx min_interval max_attempts checked now connections none h =
      insert-All (IsBounded max_attempts) identity _ connections h (omega arith)
  consider-IsBounded identity addr tx min_interval max_attempts checked now connections (some old)
        h =
      elim (Bool-cases (ltb (checked - old.established_at) min_interval)) [
        | inl e ↦ rw e h
        | inr e ↦ elim (Bool-cases (ltb max_attempts old.reconnect_count)) [
          | inl f ↦ rw (e, f) h
          | inr f ↦
              rw (e, f)
                (insert-All (IsBounded max_attempts) identity _ connections h (ground arith))
        ]
      ]

  -- No identity of the table has more than one reconnection beyond `max_reconnect_attempts`: a new
  -- connection, admitted or not, and the end of a connection keep this.
  pub reconnects-IsBounded :
      {O : Type 0}
      → (unregister_device : String → O → O) (identity : String) (addr : SocketAddr) (tx : T)
        (min_interval max_attempts checked now : ℕ) (connections : Connections T) (db : O)
      → All (IsBounded max_attempts) connections
      → All
          (IsBounded max_attempts)
          (manage_connection identity addr tx min_interval max_attempts checked now
            connections).connections
        × All
            (IsBounded max_attempts)
            (cleanup unregister_device (some identity) (connections, db)).0
  unfolding manage_connection cleanup
  reconnects-IsBounded u identity addr tx min_interval max_attempts checked now connections db h = (
    consider-IsBounded identity addr tx min_interval max_attempts checked now connections
        (HashMap.get identity connections) h,
    remove-All (IsBounded max_attempts) identity connections h,
  )

  module _ {O : Type 0} (unregister_device : String → O → O) where
    -- When the task of a connection ends, its identity is free: no disconnect command reaches a
    -- connection that has replaced it, the device's observers are unregistered, and the next
    -- connection is admitted at once, with a count of reconnections that starts again at zero.
    pub cleanup_frees :
        (identity : String) (addr : SocketAddr) (tx : T) (min_interval max_attempts checked now : ℕ)
        (connections : Connections T) (db : O)
        → (disconnect identity (cleanup unregister_device (some identity) (connections, db)).0 ≡ [])
          × ((cleanup unregister_device (some identity) (connections, db)).1
              ≡ unregister_device identity db)
          × (HashMap.get identity
                (manage_connection identity addr tx min_interval max_attempts checked now
                  (cleanup unregister_device (some identity) (connections, db)).0).connections
              ≡ some (record {
                sender = tx;
                established_at = now;
                source_addr = addr;
                reconnect_count = 0;
              }))
    unfolding cleanup disconnect manage_connection MayConnect
    cleanup_frees identity addr tx min_interval max_attempts checked now connections db =
        let gone = get-remove_self identity connections in
        (
          rw (disconnect, gone) refl,
          refl,
          rw gone (
              consider-admits identity addr tx min_interval max_attempts checked now
                (HashMap.remove identity connections) none tt),
        )

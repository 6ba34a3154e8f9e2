-- ===== src/Serve/Registry.antt =====
-- The connections of all devices in src/serve.rs: `manage_connection`, and what a connection's task
-- does to the table when it ends. The lock around the table makes each a single step. A sender of
-- the disconnect channel is a `T`; whether a signal arrives is not modelled.
pub mod Laws
use coapum.Prelude.{
  ℕ, ◌+◌, ◌-◌, Bool, true, false, Option, none, some, List, [], ◌∷◌, String, string_eq, ltb,
  if◌then◌else◌,
}
use coapum.HashMap
use coapum.HashMap.{HashMap}
use coapum.Coap.{SocketAddr}

pub record ConnectionInfo (T : Type 0) : Type 0 where
  pub sender : T
  pub established_at : ℕ
  pub source_addr : SocketAddr
  pub reconnect_count : ℕ

abbrev pub Connections : Type 0 → Type 0
Connections T = HashMap String (ConnectionInfo T)

-- What `manage_connection` comes to: the verdict, the senders that are signalled, and the table.
pub record Managed (T : Type 0) : Type 0 where
  pub allowed : Bool
  pub signalled : List T
  pub connections : Connections T

module _ {T : Type 0} where
  -- The next reconnect count of an identity.
  abbrev next_count : Option (ConnectionInfo T) → ℕ
  next_count none = 0
  next_count (some c) = c.reconnect_count + 1

  admit :
      String → SocketAddr → T → ℕ → Option (ConnectionInfo T) → List T → Connections T → Managed T
  admit identity socket_addr tx now old signalled connections = record {
    allowed = true;
    signalled = signalled;
    connections =
        HashMap.insert identity
          (record {
            sender = tx;
            established_at = now;
            source_addr = socket_addr;
            reconnect_count = next_count old;
          })
          connections;
  }

  refuse : Connections T → Managed T
  refuse connections = record { allowed = false; signalled = []; connections = connections }

  -- The tests of the interval and of the attempts, for the old connection if there is one.
  consider :
      String
      → SocketAddr
      → T
      → ℕ
      → ℕ
      → ℕ
      → ℕ
      → Connections T
      → Option (ConnectionInfo T)
      → Managed T
  unfolding admit refuse
  consider identity addr tx min_interval max_attempts checked now connections none =
      admit identity addr tx now none [] connections
  consider identity addr tx min_interval max_attempts checked now connections (some old) =
      if ltb (checked - old.established_at) min_interval
      then refuse connections
      else if ltb max_attempts old.reconnect_count
      then refuse connections
      else admit identity addr tx now (some old) (old.sender ∷ []) connections

  -- `checked` is the clock at the test of the interval, and `now` at the insertion.
  unfoldable pub manage_connection :
      String → SocketAddr → T → ℕ → ℕ → ℕ → ℕ → Connections T → Managed T
  unfolding consider
  manage_connection identity addr tx min_interval max_attempts checked now connections =
      consider identity addr tx min_interval max_attempts checked now connections
        (HashMap.get identity connections)

  -- A disconnect command signals the connection of its identity.
  unfoldable pub disconnect : String → Connections T → List T
  disconnect identity connections = elim (HashMap.get identity connections) [
    | none ↦ []
    | some info ↦ info.sender ∷ []
  ]

-- The end of a connection's task: its identity, if the handshake got that far, is removed from the
-- table and from the backend.
unfoldable pub cleanup :
    {T O : Type 0} → (String → O → O) → Option String → Connections T × O → Connections T × O
cleanup unregister_device none (connections, db) = (connections, db)
cleanup unregister_device (some id) (connections, db) =
    (HashMap.remove id connections, unregister_device id db)

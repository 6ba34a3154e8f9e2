-- ===== src/Router/StateUpdates.antt =====
-- The updates of the application's state of src/router/mod.rs: handles that send updaters over a
-- channel, and the task that applies them. The channel is a parameter.
pub mod Laws
mod Tests
use coapum.Prelude.{◌≡◌, Option, none, some, List, [], ◌∷◌, ◌++◌, Result, ok, err}

pub data TrySendError : Type 0 where
  full : TrySendError
  closed : TrySendError

-- What the code calls of `tokio::sync::mpsc`: the channel hands out what it took, in order.
pub record Mpsc (M : Type 0) : Type 1 where
  pub Queue : Type 0
  pub contents : Queue → List M
  -- `send`, once it does not wait any more; it fails where the receiver is gone
  pub send : M → Queue → Result (Unit {0}) Queue
  pub try_send : M → Queue → Result TrySendError Queue
  pub recv : Queue → Option (M × Queue)
  pub contents-send :
      (x : M) (q after : Queue) → send x q ≡ ok after → contents after ≡ contents q ++ (x ∷ [])
  pub contents-try_send :
      (x : M) (q after : Queue) → try_send x q ≡ ok after → contents after ≡ contents q ++ (x ∷ [])
  pub contents-recv :
      (x : M) (q after : Queue) → recv q ≡ some (x, after) → contents q ≡ x ∷ contents after
  pub contents-recv_none : (q : Queue) → recv q ≡ none → contents q ≡ []

pub data StateUpdateError : Type 0 where
  channel_full : StateUpdateError
  channel_closed : StateUpdateError

-- The error of a handle's call, by that of the channel.
abbrev pub of_try_send : TrySendError → StateUpdateError
of_try_send full = channel_full
of_try_send closed = channel_closed

module _ {S : Type 0} (mpsc : Mpsc (S → S)) where
  open mpsc use {Queue}

  abbrev pub sent : Result (Unit {0}) Queue → Queue → Result StateUpdateError (Unit {0}) × Queue
  sent (ok after) q = (ok tt, after)
  sent (err e) q = (err channel_closed, q)

  abbrev pub tried : Result TrySendError Queue → Queue → Result StateUpdateError (Unit {0}) × Queue
  tried (ok after) q = (ok tt, after)
  tried (err e) q = (err (of_try_send e), q)

  -- `StateUpdateHandle::update` and `try_update`: the result, and the channel after the call.
  unfoldable pub update : (S → S) → Queue → Result StateUpdateError (Unit {0}) × Queue
  update updater q = sent (mpsc.send updater q) q

  unfoldable pub try_update : (S → S) → Queue → Result StateUpdateError (Unit {0}) × Queue
  try_update updater q = tried (mpsc.try_send updater q) q

  abbrev pub applied : Option ((S → S) × Queue) → S → Queue → S × Queue
  applied none state q = (state, q)
  applied (some (updater, after)) state q = (updater state, after)

  -- One turn of the loop of `process_state_updates`; an empty channel leaves all as it is.
  unfoldable pub process_one : S → Queue → S × Queue
  process_one state q = applied (mpsc.recv q) state q

  -- What happens to the channel: calls of handles, and turns of the loop.
  pub data Event : Type 0 where
    updates : (S → S) → Event
    tries : (S → S) → Event
    processes : Event

  -- The updaters that are accepted, the state and the channel, after one event.
  abbrev pub accepted :
      Result StateUpdateError (Unit {0}) × Queue → (S → S) → S → List (S → S) × (S × Queue)
  accepted (ok done, q) updater state = (updater ∷ [], (state, q))
  accepted (err e, q) updater state = ([], (state, q))

  unfoldable pub happen : Event → S → Queue → List (S → S) × (S × Queue)
  unfolding update try_update process_one
  happen (updates updater) state q = accepted (update updater q) updater state
  happen (tries updater) state q = accepted (try_update updater q) updater state
  happen processes state q = ([], process_one state q)

  -- Events in a row.
  unfoldable pub run : List Event → S → Queue → List (S → S) × (S × Queue)
  unfolding happen
  run [] state q = ([], (state, q))
  run (e ∷ es) state q =
      let (first, (state, q)) = happen e state q in
      let (rest, last) = run es state q in (first ++ rest, last)

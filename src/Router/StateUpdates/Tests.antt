-- ===== src/Router/StateUpdates/Tests.antt =====
-- A run of the state updates over a channel that holds one updater.
use coapum.Prelude.{
  ℕ, ◌+◌, ◌*◌, ◌≡◌, refl, Option, none, some, List, [], ◌∷◌, ◌++◌, Result, ok, err,
}
use coapum.Router.StateUpdates.{
  Mpsc, TrySendError, full, Event, updates, tries, processes, run, happen, update, try_update,
  process_one,
}
use coapum.Router.StateUpdates.Laws.{apply_all, drained, run_applies, turns, process_drains}

abbrev Updater : Type 0
Updater = ℕ → ℕ

abbrev send : Updater → List Updater → Result (Unit {0}) (List Updater)
send f q = ok (q ++ (f ∷ []))

abbrev try_send : Updater → List Updater → Result TrySendError (List Updater)
try_send f [] = ok (f ∷ [])
try_send f (g ∷ q) = err full

abbrev recv : List Updater → Option (Updater × List Updater)
recv [] = none
recv (f ∷ q) = some (f, q)

contents-send : (f : Updater) (q after : List Updater) → send f q ≡ ok after → after ≡ q ++ (f ∷ [])
contents-send f q after e = cc

contents-try_send :
    (f : Updater) (q after : List Updater) → try_send f q ≡ ok after → after ≡ q ++ (f ∷ [])
contents-try_send f [] after e = cc
contents-try_send f (g ∷ q) after e = absurd cc

contents-recv : (f : Updater) (q after : List Updater) → recv q ≡ some (f, after) → q ≡ f ∷ after
contents-recv f [] after e = absurd cc
contents-recv f (g ∷ q) after e = cc

contents-recv_none : (q : List Updater) → recv q ≡ none → q ≡ []
contents-recv_none [] e = refl
contents-recv_none (f ∷ q) e = absurd cc

abbrev one_place : Mpsc Updater
one_place = record {
  Queue = List Updater;
  contents = λ q. q;
  send = send;
  try_send = try_send;
  recv = recv;
  contents-send = contents-send;
  contents-try_send = contents-try_send;
  contents-recv = contents-recv;
  contents-recv_none = contents-recv_none;
}

abbrev events : List (Event one_place)
events = tries (λ n. n + 1) ∷ tries (λ n. n * 5) ∷ processes ∷ updates (λ n. n * 10) ∷ []

-- The second update is refused; the first is applied, and the third waits.
outcome : (run one_place events 3 []).1.0 ≡ 4
unfolding run happen update try_update process_one
outcome = refl

run_applies_example :
    drained one_place (run one_place events 3 []).1
    ≡ apply_all (run one_place events 3 []).0 (drained one_place (3, []))
run_applies_example = run_applies one_place events 3 []

abbrev waiting : List Updater
waiting = (λ n. n + 1) ∷ (λ n. n * 5) ∷ []

process_drains_example :
    ((run one_place (turns one_place waiting) 3 waiting).1.1 ≡ [])
    × ((run one_place (turns one_place waiting) 3 waiting).1.0 ≡ apply_all waiting 3)
process_drains_example = process_drains one_place 3 waiting

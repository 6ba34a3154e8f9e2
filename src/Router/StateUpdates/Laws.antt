-- ===== src/Router/StateUpdates/Laws.antt =====
-- Accepted updates are applied once each, in the order of their acceptance.
use coapum.Prelude.{
  ◌≡◌, refl, sym, ap, ◌∙◌, Option, none, some, List, [], ◌∷◌, ◌++◌, Result, ok, err,
}
use coapum.Router.StateUpdates.{
  Mpsc, TrySendError, sent, tried, update, try_update, applied, process_one, Event, updates, tries,
  processes, accepted, happen, run,
}

-- The state after updates.
abbrev pub apply_all : {S : Type 0} → List (S → S) → S → S
apply_all [] state = state
apply_all (updater ∷ rest) state = apply_all rest (updater state)

apply_all-append :
    {S : Type 0} (us vs : List (S → S)) (state : S)
    → apply_all (us ++ vs) state ≡ apply_all vs (apply_all us state)
apply_all-append [] vs state = refl
apply_all-append (u ∷ us) vs state = apply_all-append us vs (u state)

module _ {S : Type 0} (mpsc : Mpsc (S → S)) where
  open mpsc use {Queue, contents}

  -- The state once the channel is drained.
  abbrev pub drained : S × Queue → S
  drained (state, q) = apply_all (contents q) state

  Accounts : List (S → S) × (S × Queue) → S × Queue → Type 0
  Accounts (us, after) before = drained after ≡ apply_all us (drained before)

  sent_lem :
      (updater : S → S) (state : S) (q after : Queue)
      → contents after ≡ contents q ++ (updater ∷ [])
      → drained (state, after) ≡ updater (drained (state, q))
  sent_lem updater state q after e =
      ap (λ us. apply_all us state) e ∙ apply_all-append (contents q) (updater ∷ []) state

  update-Accounts :
      (updater : S → S) (state : S) (q : Queue) (r : Result (Unit {0}) Queue)
      → mpsc.send updater q ≡ r
      → Accounts (accepted mpsc (sent mpsc r q) updater state) (state, q)
  unfolding Accounts
  update-Accounts updater state q (ok after) e =
      sent_lem updater state q after (mpsc.contents-send updater q after e)
  update-Accounts updater state q (err x) e = refl

  try_update-Accounts :
      (updater : S → S) (state : S) (q : Queue) (r : Result TrySendError Queue)
      → mpsc.try_send updater q ≡ r
      → Accounts (accepted mpsc (tried mpsc r q) updater state) (state, q)
  unfolding Accounts
  try_update-Accounts updater state q (ok after) e =
      sent_lem updater state q after (mpsc.contents-try_send updater q after e)
  try_update-Accounts updater state q (err x) e = refl

  process-Accounts :
      (state : S) (q : Queue) (r : Option ((S → S) × Queue))
      → mpsc.recv q ≡ r
      → Accounts ([], applied mpsc r state q) (state, q)
  unfolding Accounts
  process-Accounts state q none e = refl
  process-Accounts state q (some (updater, after)) e =
      ap (λ us. apply_all us state) (sym (mpsc.contents-recv updater q after e))

  happen-Accounts :
      (e : Event mpsc) (state : S) (q : Queue) → Accounts (happen mpsc e state q) (state, q)
  unfolding happen update try_update process_one
  happen-Accounts (updates updater) state q =
      update-Accounts updater state q (mpsc.send updater q) refl
  happen-Accounts (tries updater) state q =
      try_update-Accounts updater state q (mpsc.try_send updater q) refl
  happen-Accounts processes state q = process-Accounts state q (mpsc.recv q) refl

  -- However the calls of handles and the turns of the loop interleave, the state once the channel is
  -- drained is the one that it would have been before, changed by each accepted update once, in the
  -- order of their acceptance; a refused update changes nothing.
  pub run_applies :
      (es : List (Event mpsc)) (state : S) (q : Queue)
      → drained (run mpsc es state q).1 ≡ apply_all (run mpsc es state q).0 (drained (state, q))
  unfolding run Accounts
  run_applies [] state q = refl
  run_applies (e ∷ es) state q =
      let (first, (state', q')) = happen mpsc e state q in
      run_applies es state' q'
      ∙ ap (apply_all (run mpsc es state' q').0) (happen-Accounts e state q)
      ∙ sym (apply_all-append first (run mpsc es state' q').0 (drained (state, q)))

  -- As many turns of the loop as there are updaters.
  abbrev pub turns : List (S → S) → List (Event mpsc)
  turns [] = []
  turns (u ∷ us) = processes ∷ turns us

  turns_drain :
      (us : List (S → S)) (state : S) (q : Queue) (r : Option ((S → S) × Queue))
      → contents q ≡ us
      → mpsc.recv q ≡ r
      → (contents (run mpsc (turns us) state q).1.1 ≡ [])
        × ((run mpsc (turns us) state q).1.0 ≡ apply_all us state)
  unfolding run happen process_one
  turns_drain [] state q r e k = (e, refl)
  turns_drain (u ∷ us) state q none e k = absurd (apart (sym (mpsc.contents-recv_none q k) ∙ e))
    where
      apart : [] ≡ u ∷ us → ⊥
      apart h = cc
  turns_drain (u ∷ us) state q (some (f, after)) e k =
      let found : f ∷ contents after ≡ u ∷ us = sym (mpsc.contents-recv f q after k) ∙ e in
      let left : contents after ≡ us = cc in
      let same : f ≡ u = cc in
      let (empty, applied_all) = turns_drain us (f state) after (mpsc.recv after) left refl in
      rw (run, happen, process_one, k)
        (empty, applied_all ∙ ap (λ (g : S → S). apply_all us (g state)) same)

  -- The loop comes to an end of what it was sent: after as many turns as there are updaters in the
  -- channel, it is empty, and all of them are applied.
  pub process_drains :
      (state : S) (q : Queue)
      → (contents (run mpsc (turns (contents q)) state q).1.1 ≡ [])
        × ((run mpsc (turns (contents q)) state q).1.0 ≡ apply_all (contents q) state)
  process_drains state q = turns_drain (contents q) state q (mpsc.recv q) refl refl

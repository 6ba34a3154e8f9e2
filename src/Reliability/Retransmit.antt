-- ===== src/Reliability/Retransmit.antt =====
-- What the retransmission of outgoing CON messages guarantees, over any sequence of polls.
use native.Mathlib.Nat.{pow-suc, mul_assoc}
use native.Mathlib.Numerals.{towards_suc}
use mathlib.Core.Path.{subst}
use mathlib.Core.Option.{some-injective, none-ne-some}
use coapum.Prelude.{
  ℕ, suc, ◌+◌, ◌*◌, ◌^◌, ◌≤◌, ◌≡◌, refl, sym, ◌∙◌, Option, none, some, List, [], ◌∷◌, ◌++◌, ap,
  length, filter, Bytes, nat_eq, arith, ltb, leb, Bool-cases, inl, inr,
}
use coapum.Float64.{Float64}
use coapum.HashMap
use coapum.HashMap.{HashMap, HasDistinctKeys}
use coapum.HashMap.Laws.{
  get-insert_self, get-remove_self, insert-HasDistinctKeys, remove-HasDistinctKeys,
}
use coapum.Reliability.{
  ReliabilityState, PendingCon, RetransmitAction, resend, give_up, backoff, initial_timeout,
  track_outgoing_con, handle_ack, handle_rst,
}
use coapum.Reliability.Polls.{message_step, actions_for}
use coapum.Reliability.Schedule.{
  polls, message_polls, polls-refines, Overdue, replicate, is_resend, message_polls-Overdue,
  message_polls-none, message_polls-bound,
}

-- A message that was first sent at `start` with timeout `d` and retransmitted `retransmit_count`
-- times.
pub record IsBackoff (start d max : ℕ) (p : PendingCon) : Type 0 where
  pub doubled : p.current_timeout ≡ d * 2 ^ p.retransmit_count
  pub spaced : start + d * 2 ^ suc p.retransmit_count ≤ p.next_deadline + d
  pub limited : p.retransmit_count ≤ max

d_pow-suc : (d n : ℕ) → d * 2 ^ suc n ≡ d * 2 ^ n * 2
d_pow-suc d n = rw (pow-suc, ← mul_assoc) refl

backoff-IsBackoff :
    (start d max now : ℕ) (p : PendingCon)
    → IsBackoff start d max p
    → p.next_deadline ≤ now
    → suc p.retransmit_count ≤ max
    → IsBackoff start d max (backoff now p)
backoff-IsBackoff start d max now p b due room = record {
  doubled = simp towards_suc (omega (arith, d_pow-suc d p.retransmit_count));
  spaced =
      simp towards_suc
        (omega (arith, d_pow-suc d p.retransmit_count, d_pow-suc d (suc p.retransmit_count)));
  limited = omega arith;
}

message_polls-IsBackoff :
    (start d max j : ℕ) (ts : List ℕ) (p q : PendingCon)
    → IsBackoff start d max p
    → (message_polls max j ts (some p)).1 ≡ some q
    → IsBackoff start d max q
unfolding message_polls message_step
message_polls-IsBackoff start d max j [] p q b e =
    subst (IsBackoff start d max) (some-injective p q e) b
message_polls-IsBackoff start d max j (now ∷ ts) p q b e =
    elim (Bool-cases (ltb now p.next_deadline)) [
      | inl early ↦ message_polls-IsBackoff start d max j ts p q b (rw early at e)
      | inr due ↦ elim (Bool-cases (leb max p.retransmit_count)) [
        | inl over ↦ absurd (none-ne-some q (rw (due, over, message_polls-none max j ts) at e))
        | inr room ↦
            message_polls-IsBackoff start d max j ts (backoff now p) q
              (backoff-IsBackoff start d max now p b (ground arith) (ground arith))
              (rw (due, room) at e)
      ]
    ]

module _ (float : Float64) (now draw j : ℕ) (bytes : Bytes) (s : ReliabilityState float.Num) where
  abbrev pub tracked : ReliabilityState float.Num
  tracked = track_outgoing_con float now draw j bytes s

  abbrev pub timeout : ℕ
  timeout = initial_timeout float s.params draw

  abbrev fresh : PendingCon
  fresh = record {
    serialized = bytes;
    retransmit_count = 0;
    next_deadline = now + timeout;
    current_timeout = timeout;
  }

  get-tracked : HashMap.get j tracked.pending_cons ≡ some fresh
  unfolding track_outgoing_con
  get-tracked = get-insert_self j fresh s.pending_cons

  tracked-HasDistinctKeys : HasDistinctKeys s.pending_cons → HasDistinctKeys tracked.pending_cons
  unfolding track_outgoing_con
  tracked-HasDistinctKeys d = insert-HasDistinctKeys j fresh s.pending_cons d

  polls-tracked :
      (ts : List ℕ)
      → HasDistinctKeys s.pending_cons
      → (actions_for j (polls ts tracked).0
          ≡ (message_polls s.params.max_retransmit j ts (some fresh)).0)
        × (HashMap.get j (polls ts tracked).1.pending_cons
            ≡ (message_polls s.params.max_retransmit j ts (some fresh)).1)
  unfolding track_outgoing_con
  polls-tracked ts d = rw (← get-tracked) (polls-refines j ts tracked (tracked-HasDistinctKeys d))

  -- A tracked message that is polled `max_retransmit + 1` times, each time when it is due, the
  -- timeout doubling from one poll to the next, is sent again unchanged `max_retransmit` times, is
  -- then given up, and is no longer pending.
  pub retransmission_schedule :
      (ts : List ℕ)
      → HasDistinctKeys s.pending_cons
      → Overdue (now + timeout) timeout ts
      → length ts ≡ suc s.params.max_retransmit
      → (actions_for j (polls ts tracked).0
          ≡ replicate s.params.max_retransmit (resend j bytes) ++ give_up j ∷ [])
        × (HashMap.get j (polls ts tracked).1.pending_cons ≡ none)
  retransmission_schedule ts d o l =
      let run =
        message_polls-Overdue s.params.max_retransmit s.params.max_retransmit j ts fresh o
          (omega arith) l in
      let (actions, left) = polls-tracked ts d in
      (
        actions ∙ ap (λ (r : List RetransmitAction × Option PendingCon). r.0) run,
        left ∙ ap (λ (r : List RetransmitAction × Option PendingCon). r.1) run,
      )

  -- Whenever the server polls, a tracked message is never sent again more than `max_retransmit`
  -- times.
  pub resend_bound :
      (ts : List ℕ)
      → HasDistinctKeys s.pending_cons
      → length (filter is_resend (actions_for j (polls ts tracked).0)) ≤ s.params.max_retransmit
  resend_bound ts d =
      rw (polls-tracked ts d).0
        (omega (arith, message_polls-bound s.params.max_retransmit j ts fresh (omega arith)))

  -- Whenever the server polls, as long as a tracked message is pending after `n` retransmissions,
  -- its timeout is the initial one times 2 ^ n with n at most `max_retransmit`, and its deadline is
  -- no earlier than the first transmission plus the initial timeout times 2 ^ (n + 1) - 1.
  pub polls-IsBackoff :
      (ts : List ℕ) (q : PendingCon)
      → HasDistinctKeys s.pending_cons
      → HashMap.get j (polls ts tracked).1.pending_cons ≡ some q
      → IsBackoff now timeout s.params.max_retransmit q
  polls-IsBackoff ts q d e =
      message_polls-IsBackoff now timeout s.params.max_retransmit j ts fresh q
        (record { doubled = omega arith; spaced = omega arith; limited = omega arith })
        (sym (polls-tracked ts d).1 ∙ e)

-- A message that is acknowledged or reset is not pending, and no later poll acts on it.
pub ack_or_rst_stops :
    {F : Type 0} (j : ℕ) (ts : List ℕ) (s : ReliabilityState F)
    → HasDistinctKeys s.pending_cons
    → (actions_for j (polls ts (handle_ack j s).1).0 ≡ [])
      × (actions_for j (polls ts (handle_rst j s).1).0 ≡ [])
unfolding handle_ack handle_rst
ack_or_rst_stops j ts s d =
    let s' = (handle_ack j s).1 in
    let max = s.params.max_retransmit in
    let distinct = remove-HasDistinctKeys j s.pending_cons d in
    let idle =
      (polls-refines j ts s' distinct).0
      ∙ ap (λ (o : Option PendingCon). (message_polls max j ts o).0)
          (get-remove_self j s.pending_cons)
      ∙ ap (λ (r : List RetransmitAction × Option PendingCon). r.0) (message_polls-none max j ts) in
    (idle, idle)

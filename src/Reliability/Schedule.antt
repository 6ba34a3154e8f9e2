-- ===== src/Reliability/Schedule.antt =====
-- The retransmission schedule of one message: how often, with which delays, and when it ends.
use coapum.Prelude.{
  ℕ, zero, suc, ◌+◌, ◌*◌, ◌≤◌, ◌≡◌, refl, Bool, true, false, Option, none, some, List, [], ◌∷◌,
  ◌++◌, length, filter, nat_eq, arith, Bool-cases, inl, inr, ltb, leb,
}
use coapum.HashMap
use coapum.HashMap.{HashMap, HasDistinctKeys}
use coapum.Reliability.{
  ReliabilityState, PendingCon, RetransmitAction, resend, give_up, backoff, process_retransmits,
}
use coapum.Reliability.Polls.{
  message_step, actions_for, process_retransmits-refines, process_retransmits-HasDistinctKeys,
  process_retransmits-params,
}

-- The server polls at the given clock readings, one after the other.
unfoldable pub polls :
    {F : Type 0} → List ℕ → ReliabilityState F → List RetransmitAction × ReliabilityState F
polls [] s = ([], s)
polls (now ∷ later) s =
    let (actions, s') = process_retransmits now s in
    let (rest, s'') = polls later s' in (actions ++ rest, s'')

-- The same for the machine of one message.
unfoldable pub message_polls :
    ℕ → ℕ → List ℕ → Option PendingCon → List RetransmitAction × Option PendingCon
message_polls max j [] o = ([], o)
message_polls max j (now ∷ later) o =
    let (actions, o') = message_step now max j o in
    let (rest, o'') = message_polls max j later o' in (actions ++ rest, o'')

actions_for-append :
    (j : ℕ) (xs ys : List RetransmitAction)
    → actions_for j (xs ++ ys) ≡ actions_for j xs ++ actions_for j ys
actions_for-append j [] ys = refl
actions_for-append j (x ∷ xs) ys = ground (arith, actions_for-append j xs ys)

pub polls-refines :
    {F : Type 0} (j : ℕ) (ts : List ℕ) (s : ReliabilityState F)
    → HasDistinctKeys s.pending_cons
    → (actions_for j (polls ts s).0
        ≡ (message_polls s.params.max_retransmit j ts (HashMap.get j s.pending_cons)).0)
      × (HashMap.get j (polls ts s).1.pending_cons
          ≡ (message_polls s.params.max_retransmit j ts (HashMap.get j s.pending_cons)).1)
unfolding polls message_polls
polls-refines j [] s d = (refl, refl)
polls-refines j (now ∷ ts) s d =
    let s' = (process_retransmits now s).1 in
    let one = process_retransmits-refines now j s d in
    let rest = polls-refines j ts s' (process_retransmits-HasDistinctKeys now s d) in
    ground (
      arith,
      one,
      rest,
      process_retransmits-params now s,
      actions_for-append j (process_retransmits now s).0 (polls ts s').0,
    )

-- Each poll comes when the message is due, the timeout doubling from one to the next.
abbrev pub Overdue : ℕ → ℕ → List ℕ → Type 0
Overdue deadline timeout [] = Unit
Overdue deadline timeout (now ∷ ts) =
    (deadline ≤ now) × Overdue (now + timeout * 2) (timeout * 2) ts

abbrev pub replicate {ℓ} : {A : Type ℓ} → ℕ → A → List A
replicate zero a = []
replicate (suc n) a = a ∷ replicate n a

-- `n` retransmissions are left, and then the message is given up.
pub message_polls-Overdue :
    (n max j : ℕ) (ts : List ℕ) (p : PendingCon)
    → Overdue p.next_deadline p.current_timeout ts
    → n + p.retransmit_count ≡ max
    → length ts ≡ suc n
    → message_polls max j ts (some p)
      ≡ (replicate n (resend j p.serialized) ++ give_up j ∷ [], none)
unfolding message_polls message_step
message_polls-Overdue n max j [] p o e l = absurd (omega arith)
message_polls-Overdue zero max j (now ∷ []) p o e l = ground arith
message_polls-Overdue zero max j (now ∷ t ∷ ts) p o e l = absurd (omega arith)
message_polls-Overdue (suc n) max j (now ∷ ts) p (due, o) e l =
    ground (arith, message_polls-Overdue n max j ts (backoff now p) o (omega arith) (omega arith))

abbrev pub is_resend : RetransmitAction → Bool
is_resend (resend _ _) = true
is_resend (give_up _) = false

pub message_polls-none : (max j : ℕ) (ts : List ℕ) → message_polls max j ts none ≡ ([], none)
unfolding message_polls message_step
message_polls-none max j [] = refl
message_polls-none max j (now ∷ ts) = rw (message_polls-none max j ts)

pub message_polls-bound :
    (max j : ℕ) (ts : List ℕ) (p : PendingCon)
    → p.retransmit_count ≤ max
    → length (filter is_resend (message_polls max j ts (some p)).0) + p.retransmit_count ≤ max
unfolding message_polls message_step
message_polls-bound max j [] p h = omega arith
message_polls-bound max j (now ∷ ts) p h = elim (Bool-cases (ltb now p.next_deadline)) [
  | inl e ↦ rw e (message_polls-bound max j ts p h)
  | inr e ↦ elim (Bool-cases (leb max p.retransmit_count)) [
    | inl f ↦ rw (e, f) (rw (message_polls-none max j ts) (omega arith))
    | inr f ↦ rw (e, f) (omega (arith, message_polls-bound max j ts (backoff now p) (ground arith)))
  ]
]

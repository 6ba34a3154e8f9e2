-- ===== src/Reliability/Polls.antt =====
-- `process_retransmits` runs one small machine for each outstanding message.
use coapum.Prelude.{
  ℕ, ◌≡◌, refl, Bool, false, Option, none, some, List, [], ◌∷◌, ltb, leb, nat_beq, if◌then◌else◌,
  any, filter, nat_eq, arith, ◌&&◌, not, Bool-cases, inl, inr,
}
use coapum.HashMap
use coapum.HashMap.{HashMap, HasDistinctKeys}
use coapum.HashMap.Laws.{get-remove, remove-HasDistinctKeys}
use coapum.Reliability.{
  ReliabilityState, PendingCon, RetransmitAction, resend, give_up, backoff, scan, remove_all,
  process_retransmits,
}

abbrev pub id_of : RetransmitAction → ℕ
id_of (resend msg_id _) = msg_id
id_of (give_up msg_id) = msg_id

abbrev pub actions_for : ℕ → List RetransmitAction → List RetransmitAction
actions_for j = filter (λ a. nat_beq (id_of a) j)

-- The machine of one message: what it does when it is polled, and what is left of it.
unfoldable pub message_step :
    ℕ → ℕ → ℕ → Option PendingCon → List RetransmitAction × Option PendingCon
message_step now max j none = ([], none)
message_step now max j (some p) =
    if ltb now p.next_deadline
    then ([], some p)
    else if leb max p.retransmit_count
    then (give_up j ∷ [], none)
    else (resend j p.serialized ∷ [], some (backoff now p))

abbrev is_done : ℕ → ℕ → Option PendingCon → Bool
is_done now max none = false
is_done now max (some p) = not (ltb now p.next_deadline) && leb max p.retransmit_count

abbrev rescheduled : ℕ → ℕ → Option PendingCon → Option PendingCon
rescheduled now max none = none
rescheduled now max (some p) =
    if ltb now p.next_deadline
    then some p
    else if leb max p.retransmit_count
    then some p
    else some (backoff now p)

abbrev has : ℕ → List ℕ → Bool
has j = any (λ i. nat_beq i j)

get-remove_all :
    (j : ℕ) (ids : List ℕ) (m : HashMap ℕ PendingCon)
    → HashMap.get j (remove_all ids m) ≡ (if has j ids then none else HashMap.get j m)
unfolding remove_all
get-remove_all j [] m = refl
get-remove_all j (i ∷ ids) m =
    ground (arith, get-remove_all j ids (HashMap.remove i m), get-remove i j m)

module _ (now max j : ℕ) where
  scan-map :
      (m : HashMap ℕ PendingCon)
      → HashMap.get j (scan now max m).0 ≡ rescheduled now max (HashMap.get j m)
  unfolding scan HashMap.get
  scan-map [] = refl
  scan-map ((i, p) ∷ m) = ground (arith, scan-map m)

  scan-absent :
      (m : HashMap ℕ PendingCon)
      → HashMap.get j m ≡ none
      → (actions_for j (scan now max m).1 ≡ []) × (has j (scan now max m).2 ≡ false)
  unfolding scan HashMap.get
  scan-absent [] h = (refl, refl)
  scan-absent ((i, p) ∷ m) h = ground (arith, scan-absent m)

  scan-present :
      (m : HashMap ℕ PendingCon)
      → HasDistinctKeys m
      → (actions_for j (scan now max m).1 ≡ (message_step now max j (HashMap.get j m)).0)
        × (has j (scan now max m).2 ≡ is_done now max (HashMap.get j m))
  unfolding scan message_step HashMap.get
  scan-present [] d = (refl, refl)
  scan-present ((i, p) ∷ m) (fresh, d) = elim (Bool-cases (nat_beq i j)) [
    | inl e ↦
        let same : i ≡ j = ground arith in
        let rest = scan-absent m (rw same at fresh) in ground (arith, rest)
    | inr e ↦ ground (arith, scan-present m d)
  ]

-- One call of `process_retransmits` polls the machine of every message: the actions for a message
-- id, and what is pending under it afterwards, are those of its machine alone.
pub process_retransmits-refines :
    {F : Type 0} (now j : ℕ) (s : ReliabilityState F)
    → HasDistinctKeys s.pending_cons
    → (actions_for j (process_retransmits now s).0
        ≡ (message_step now s.params.max_retransmit j (HashMap.get j s.pending_cons)).0)
      × (HashMap.get j (process_retransmits now s).1.pending_cons
          ≡ (message_step now s.params.max_retransmit j (HashMap.get j s.pending_cons)).1)
unfolding process_retransmits message_step
process_retransmits-refines now j s d =
    let max = s.params.max_retransmit in
    let (m, actions, ids) = scan now max s.pending_cons in
    let present = scan-present now max j s.pending_cons d in
    let mapped = scan-map now max j s.pending_cons in
    (present.0, ground (arith, present, mapped, get-remove_all j ids m))

scan-HasDistinctKeys :
    (now max : ℕ) (m : HashMap ℕ PendingCon)
    → HasDistinctKeys m
    → HasDistinctKeys (scan now max m).0
unfolding scan
scan-HasDistinctKeys now max [] d = tt
scan-HasDistinctKeys now max ((i, p) ∷ m) (fresh, d) =
    ground (arith, scan-HasDistinctKeys now max m d, scan-map now max i m)

remove_all-HasDistinctKeys :
    (ids : List ℕ) (m : HashMap ℕ PendingCon)
    → HasDistinctKeys m
    → HasDistinctKeys (remove_all ids m)
unfolding remove_all
remove_all-HasDistinctKeys [] m d = d
remove_all-HasDistinctKeys (i ∷ ids) m d =
    remove_all-HasDistinctKeys ids (HashMap.remove i m) (remove-HasDistinctKeys i m d)

pub process_retransmits-HasDistinctKeys :
    {F : Type 0} (now : ℕ) (s : ReliabilityState F)
    → HasDistinctKeys s.pending_cons
    → HasDistinctKeys (process_retransmits now s).1.pending_cons
unfolding process_retransmits
process_retransmits-HasDistinctKeys now s d =
    let (m, actions, ids) = scan now s.params.max_retransmit s.pending_cons in
    remove_all-HasDistinctKeys ids m
      (scan-HasDistinctKeys now s.params.max_retransmit s.pending_cons d)

pub process_retransmits-params :
    {F : Type 0} (now : ℕ) (s : ReliabilityState F)
    → (process_retransmits now s).1.params ≡ s.params
unfolding process_retransmits
process_retransmits-params now s = refl

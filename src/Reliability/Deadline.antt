-- ===== src/Reliability/Deadline.antt =====
-- The retransmission timer: `next_retransmit_deadline` is when `process_retransmits` has work.
use coapum.Prelude.{
  ℕ, ◌≤◌, ◌<◌, ◌≡◌, ◌≢◌, ◌↔◌, refl, ap, true, false, none, some, List, [], ◌∷◌, ltb, nat_eq, arith,
  Bool-cases, inl, inr, Option-cases, is_empty, not,
}
use coapum.HashMap.{HashMap}
use coapum.Reliability.{
  ReliabilityState, PendingCon, RetransmitAction, scan, earliest, process_retransmits,
  next_retransmit_deadline, has_pending,
}

-- No pending message is due.
abbrev IsQuiet : ℕ → HashMap ℕ PendingCon → Type 0
IsQuiet now [] = Unit
IsQuiet now ((_, p) ∷ m) = (ltb now p.next_deadline ≡ true) × IsQuiet now m

scan-IsQuiet :
    (now max : ℕ) (m : HashMap ℕ PendingCon) → IsQuiet now m → scan now max m ≡ (m, [], [])
unfolding scan
scan-IsQuiet now max [] h = refl
scan-IsQuiet now max ((i, p) ∷ m) (q, h) = rw (scan-IsQuiet now max m h, q)

earliest-none : (m : HashMap ℕ PendingCon) → earliest m ≡ none → m ≡ []
unfolding earliest
earliest-none [] e = refl
earliest-none ((i, p) ∷ m) e = ground arith

IsQuiet-of_earliest :
    (now : ℕ) (m : HashMap ℕ PendingCon) (d : ℕ) → earliest m ≡ some d → now < d → IsQuiet now m
unfolding earliest
IsQuiet-of_earliest now [] d e h = tt
IsQuiet-of_earliest now ((i, p) ∷ m) d e h = elim (Option-cases (earliest m)) [
  | inl n ↦ rw (earliest-none m n) (ground arith, tt)
  | inr (x, f) ↦
      let parts : (now < p.next_deadline) × (now < x) = ground arith in
      (ground (arith, parts), IsQuiet-of_earliest now m x f parts.1)
]

scan_due :
    (now max d : ℕ) (m : HashMap ℕ PendingCon)
    → earliest m ≡ some d
    → d ≤ now
    → (scan now max m).1 ≢ []
unfolding scan earliest
scan_due now max d [] e h = cc
scan_due now max d ((i, p) ∷ m) e h = elim (Option-cases (earliest m)) [
  | inl n ↦ ground arith
  | inr (x, f) ↦ ground (arith, scan_due now max x m f)
]

armed : (m : HashMap ℕ PendingCon) → (earliest m ≡ none) ↔ (not (is_empty m) ≡ false)
unfolding earliest
armed [] = (λ e. refl, λ e. refl)
armed ((i, p) ∷ m) = ground arith

-- Whatever is pending, the timer is armed (`next_retransmit_deadline` gives a deadline) exactly
-- while a message is pending.
pub timer_armed_iff :
    {F : Type 0} (s : ReliabilityState F)
    → (next_retransmit_deadline s ≡ none) ↔ (has_pending s ≡ false)
unfolding next_retransmit_deadline has_pending
timer_armed_iff s = armed s.pending_cons

-- Where `next_retransmit_deadline` gives `d`, a poll has nothing to send again or to give up
-- exactly before `d`, and exactly then it does nothing at all.
pub process_retransmits-idle_iff :
    {F : Type 0} (now d : ℕ) (s : ReliabilityState F)
    → next_retransmit_deadline s ≡ some d
    → (((process_retransmits now s).0 ≡ []) ↔ (now < d))
      × ((process_retransmits now s ≡ ([], s)) ↔ (now < d))
unfolding next_retransmit_deadline process_retransmits
process_retransmits-idle_iff {F} now d s e =
    let max = s.params.max_retransmit in
    let idle : now < d → process_retransmits now s ≡ ([], s) = λ early.
      rw (scan-IsQuiet now max s.pending_cons (IsQuiet-of_earliest now s.pending_cons d e early)) in
    let busy : (process_retransmits now s).0 ≡ [] → now < d = λ none_due.
      elim (Bool-cases (ltb now d)) [
        | inl early ↦ ground arith
        | inr due ↦ absurd (scan_due now max d s.pending_cons e (ground arith) none_due)
      ] in
    let first = λ (r : List RetransmitAction × ReliabilityState F). r.0 in
    ((busy, λ h. ap first (idle h)), (λ h. busy (ap first h), idle))

-- ===== src/Reliability/Tests.antt =====
-- Runs of src/reliability.rs, and its theorems at concrete inputs.
use coapum.Prelude.{ℕ, ◌≡◌, refl, none, List, [], ◌∷◌, length, arith, nat_eq}
use coapum.Samples.{thousandths}
use coapum.HashMap
use coapum.Reliability.{
  RetransmitParams, ReliabilityState, new, initial_timeout, track_outgoing_con, resend, give_up,
  process_retransmits, check_dedup, record_response, duplicate, PendingCon, DedupEntry,
}
use coapum.Reliability.Dedup.{
  DedupCall, checked, recorded, answer, last_response, run, check_dedup-refines,
}
use coapum.Reliability.CacheSize.{record_response_grows}
use coapum.Reliability.Polls.{actions_for}
use coapum.Reliability.Schedule.{polls}
use coapum.Reliability.Retransmit.{IsBackoff, retransmission_schedule, polls-IsBackoff}

abbrev params : RetransmitParams ℕ
params = record {
  ack_timeout = 100;
  ack_random_factor = 1500;
  max_retransmit = 2;
  exchange_lifetime = 500;
}

abbrev empty : ReliabilityState ℕ
empty = record { params = params; pending_cons = []; dedup_cache = [] }

abbrev pending : PendingCon
pending = record {
  serialized = 7 ∷ [];
  retransmit_count = 0;
  next_deadline = 150;
  current_timeout = 100;
}

abbrev entry : DedupEntry
entry = record { response_bytes = 1 ∷ []; expires = 500 }

abbrev busy : ReliabilityState ℕ
busy = record { params = params; pending_cons = (9, pending) ∷ []; dedup_cache = (3, entry) ∷ [] }

draws : initial_timeout thousandths params 250 ≡ 125
unfolding initial_timeout
draws = refl

abbrev calls : List DedupCall
calls = checked 20 5 ∷ recorded 10 11 5 (1 ∷ 2 ∷ []) ∷ checked 9 5 ∷ []

check_dedup_hit : (check_dedup 509 5 (run params calls)).0 ≡ duplicate (1 ∷ 2 ∷ [])
unfolding check_dedup run record_response new HashMap.get HashMap.insert HashMap.remove
check_dedup_hit = refl

check_dedup-refines_example :
    (check_dedup 509 5 (run params calls)).0 ≡ answer (last_response 500 509 5 calls)
check_dedup-refines_example = check_dedup-refines params 509 5 calls (omega arith)

record_response_grows_example : length (record_response 10 11 4 [] busy).dedup_cache ≡ 2
unfolding HashMap.get
record_response_grows_example = record_response_grows 10 11 4 [] busy (refl, tt) refl (omega arith)

retransmission_schedule_example :
    (actions_for 4
        (polls (125 ∷ 375 ∷ 900 ∷ []) (track_outgoing_con thousandths 0 250 4 (8 ∷ []) busy)).0
      ≡ resend 4 (8 ∷ []) ∷ resend 4 (8 ∷ []) ∷ give_up 4 ∷ [])
    × (HashMap.get 4
          (polls
            (125 ∷ 375 ∷ 900 ∷ [])
            (track_outgoing_con thousandths 0 250 4 (8 ∷ []) busy)).1.pending_cons
        ≡ none)
unfolding initial_timeout HashMap.get
retransmission_schedule_example =
    retransmission_schedule thousandths 0 250 4 (8 ∷ []) busy (125 ∷ 375 ∷ 900 ∷ []) (refl, tt)
      (omega arith) refl

abbrev after_one : PendingCon
after_one = record {
  serialized = 8 ∷ [];
  retransmit_count = 1;
  next_deadline = 375;
  current_timeout = 250;
}

polls-IsBackoff_example : IsBackoff 0 (initial_timeout thousandths params 250) 2 after_one
unfolding initial_timeout HashMap.get HashMap.insert HashMap.remove polls process_retransmits
    track_outgoing_con
polls-IsBackoff_example =
    polls-IsBackoff thousandths 0 250 4 (8 ∷ []) busy (125 ∷ []) after_one (refl, tt) refl

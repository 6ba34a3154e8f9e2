-- ===== src/Reliability.antt =====
-- src/reliability.rs: retransmission of the CON messages that the server sent, and deduplication
-- of those that it receives. Each reading of the clock, and the random draw, is an argument.
pub mod Dedup
pub mod CacheSize
pub mod Polls
pub mod Schedule
pub mod Retransmit
pub mod Deadline
mod Tests
use mathlib.Core.Option
use coapum.Prelude.{
  ℕ, ◌+◌, ◌*◌, Bool, Option, none, some, List, [], ◌∷◌, ltb, leb, if◌then◌else◌, length, not,
  is_empty, is_some, min, Bytes, nat_eq,
}
use coapum.HashMap
use coapum.HashMap.{HashMap}
use coapum.Float64.{Float64}

-- `F` is the type of floating-point numbers.
pub record RetransmitParams (F : Type 0) : Type 0 where
  pub ack_timeout : ℕ
  pub ack_random_factor : F
  pub max_retransmit : ℕ
  pub exchange_lifetime : ℕ

unfoldable pub initial_timeout : (float : Float64) → RetransmitParams float.Num → ℕ → ℕ
initial_timeout float p draw =
    if float.leb p.ack_random_factor float.one
    then p.ack_timeout
    else float.mul_f64 p.ack_timeout (float.random_range float.one p.ack_random_factor draw)

pub record PendingCon : Type 0 where
  pub serialized : Bytes
  pub retransmit_count : ℕ
  pub next_deadline : ℕ
  pub current_timeout : ℕ

pub record DedupEntry : Type 0 where
  pub response_bytes : Bytes
  pub expires : ℕ

pub data RetransmitAction : Type 0 where
  resend : ℕ → Bytes → RetransmitAction
  give_up : ℕ → RetransmitAction

pub data DedupResult : Type 0 where
  new_message : DedupResult
  duplicate : Bytes → DedupResult

abbrev pub max_dedup_entries : ℕ
max_dedup_entries = 256

pub record ReliabilityState (F : Type 0) : Type 0 where
  pub params : RetransmitParams F
  pub pending_cons : HashMap ℕ PendingCon
  pub dedup_cache : HashMap ℕ DedupEntry

abbrev is_expired : ℕ → Option DedupEntry → Bool
is_expired now none = Bool.false
is_expired now (some entry) = leb entry.expires now

abbrev cached : Option DedupEntry → DedupResult
cached none = new_message
cached (some entry) = duplicate entry.response_bytes

-- `values().map(|p| p.next_deadline).min()`
earliest : HashMap ℕ PendingCon → Option ℕ
earliest [] = none
earliest ((_, p) ∷ m) = elim (earliest m) [
  | none ↦ some p.next_deadline
  | some d ↦ some (min p.next_deadline d)
]

module _ {F : Type 0} where
  unfoldable pub new : RetransmitParams F → ReliabilityState F
  new params = record { params = params; pending_cons = []; dedup_cache = [] }

  unfoldable pub check_dedup : ℕ → ℕ → ReliabilityState F → DedupResult × ReliabilityState F
  check_dedup now msg_id s =
      let cache =
        if is_expired now (HashMap.get msg_id s.dedup_cache)
        then HashMap.remove msg_id s.dedup_cache
        else s.dedup_cache in
      (cached (HashMap.get msg_id cache), record s { dedup_cache = cache })

  unfoldable pub gc_dedup_cache : ℕ → ReliabilityState F → ReliabilityState F
  gc_dedup_cache now s = record s {
    dedup_cache = HashMap.retain (λ _ entry. ltb now entry.expires) s.dedup_cache;
  }

  -- `now` is read at the insertion, and `gc_now` by the collection.
  unfoldable pub record_response : ℕ → ℕ → ℕ → Bytes → ReliabilityState F → ReliabilityState F
  unfolding gc_dedup_cache
  record_response now gc_now msg_id bytes s =
      let entry : DedupEntry = record {
        response_bytes = bytes;
        expires = now + s.params.exchange_lifetime;
      } in
      let s' : ReliabilityState F = record s {
        dedup_cache = HashMap.insert msg_id entry s.dedup_cache;
      } in
      if ltb max_dedup_entries (length s'.dedup_cache) then gc_dedup_cache gc_now s' else s'

  unfoldable pub handle_ack : ℕ → ReliabilityState F → Bool × ReliabilityState F
  handle_ack msg_id s = (
    is_some (HashMap.get msg_id s.pending_cons),
    record s { pending_cons = HashMap.remove msg_id s.pending_cons },
  )

  unfoldable pub handle_rst : ℕ → ReliabilityState F → Bool × ReliabilityState F
  handle_rst msg_id s = (
    is_some (HashMap.get msg_id s.pending_cons),
    record s { pending_cons = HashMap.remove msg_id s.pending_cons },
  )

  unfoldable pub next_retransmit_deadline : ReliabilityState F → Option ℕ
  unfolding earliest
  next_retransmit_deadline s = earliest s.pending_cons

  unfoldable pub has_pending : ReliabilityState F → Bool
  has_pending s = not (is_empty s.pending_cons)

unfoldable pub track_outgoing_con :
    (float : Float64) → ℕ → ℕ → ℕ → Bytes → ReliabilityState float.Num → ReliabilityState float.Num
track_outgoing_con float now draw msg_id serialized s =
    let timeout = initial_timeout float s.params draw in
    let entry : PendingCon = record {
      serialized = serialized;
      retransmit_count = 0;
      next_deadline = now + timeout;
      current_timeout = timeout;
    } in
    record s { pending_cons = HashMap.insert msg_id entry s.pending_cons }

abbrev pub backoff : ℕ → PendingCon → PendingCon
backoff now p = record p {
  retransmit_count = p.retransmit_count + 1;
  next_deadline = now + p.current_timeout * 2;
  current_timeout = p.current_timeout * 2;
}

-- The loop over the pending messages: the map after it, the actions, and the ids to remove.
scan : ℕ → ℕ → HashMap ℕ PendingCon → HashMap ℕ PendingCon × List RetransmitAction × List ℕ
scan now max [] = ([], [], [])
scan now max ((msg_id, p) ∷ m) =
    let (m', actions, to_remove) = scan now max m in
    if ltb now p.next_deadline
    then ((msg_id, p) ∷ m', actions, to_remove)
    else if leb max p.retransmit_count
    then ((msg_id, p) ∷ m', give_up msg_id ∷ actions, msg_id ∷ to_remove)
    else ((msg_id, backoff now p) ∷ m', resend msg_id p.serialized ∷ actions, to_remove)

remove_all : List ℕ → HashMap ℕ PendingCon → HashMap ℕ PendingCon
remove_all [] m = m
remove_all (msg_id ∷ ids) m = remove_all ids (HashMap.remove msg_id m)

unfoldable pub process_retransmits :
    {F : Type 0} → ℕ → ReliabilityState F → List RetransmitAction × ReliabilityState F
unfolding scan remove_all
process_retransmits now s =
    let (m, actions, to_remove) = scan now s.params.max_retransmit s.pending_cons in
    (actions, record s { pending_cons = remove_all to_remove m })

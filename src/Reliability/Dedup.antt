-- ===== src/Reliability/Dedup.antt =====
-- Deduplication of incoming CON messages: what the cache remembers, and how large it grows.
use coapum.Prelude.{
  ℕ, ◌+◌, ◌≤◌, ◌≡◌, refl, Option, none, some, List, [], ◌∷◌, ltb, leb, if◌then◌else◌, Bytes, nat_eq,
  arith, nat_beq, ap, ◌∙◌,
}
use coapum.HashMap
use coapum.HashMap.{HashMap, HasDistinctKeys}
use coapum.HashMap.Laws.{
  get-insert, get-remove, get-retain, insert-HasDistinctKeys, remove-HasDistinctKeys,
  retain-HasDistinctKeys,
}
use coapum.Reliability.{
  RetransmitParams, ReliabilityState, DedupEntry, DedupResult, new_message, duplicate, new,
  check_dedup, record_response, gc_dedup_cache,
}

-- What an entry answers at time `t`.
live : ℕ → Option DedupEntry → Option Bytes
live t none = none
live t (some entry) = if leb entry.expires t then none else some entry.response_bytes

abbrev pub answer : Option Bytes → DedupResult
answer none = new_message
answer (some bytes) = duplicate bytes

module _ {F : Type 0} where
  remembered : ℕ → ℕ → ReliabilityState F → Option Bytes
  unfolding live
  remembered t msg_id s = live t (HashMap.get msg_id s.dedup_cache)

  check_dedup-answer :
      (now msg_id : ℕ) (s : ReliabilityState F)
      → (check_dedup now msg_id s).0 ≡ answer (remembered now msg_id s)
  unfolding check_dedup remembered
  check_dedup-answer now msg_id s = ground (arith, get-remove msg_id msg_id s.dedup_cache)

  remembered-check_dedup :
      (now t msg_id j : ℕ) (s : ReliabilityState F)
      → now ≤ t
      → remembered t j (check_dedup now msg_id s).1 ≡ remembered t j s
  unfolding check_dedup remembered
  remembered-check_dedup now t msg_id j s h = ground (arith, get-remove msg_id j s.dedup_cache)

  remembered-gc_dedup_cache :
      (now t j : ℕ) (s : ReliabilityState F)
      → now ≤ t
      → HasDistinctKeys s.dedup_cache
      → remembered t j (gc_dedup_cache now s) ≡ remembered t j s
  unfolding gc_dedup_cache remembered
  remembered-gc_dedup_cache now t j s h d =
      ground (arith, get-retain (λ _ (entry : DedupEntry). ltb now entry.expires) j s.dedup_cache d)

  remembered-record_response :
      (now gc_now t msg_id j : ℕ) (bytes : Bytes) (s : ReliabilityState F)
      → gc_now ≤ t
      → HasDistinctKeys s.dedup_cache
      → remembered t j (record_response now gc_now msg_id bytes s) ≡ (
          if nat_beq msg_id j
          then if leb (now + s.params.exchange_lifetime) t then none else some bytes
          else remembered t j s)
  unfolding record_response remembered
  remembered-record_response now gc_now t msg_id j bytes s h d =
      let entry : DedupEntry = record {
        response_bytes = bytes;
        expires = now + s.params.exchange_lifetime;
      } in
      let cache = HashMap.insert msg_id entry s.dedup_cache in
      let kept =
        get-retain (λ _ (x : DedupEntry). ltb gc_now x.expires) j cache
          (insert-HasDistinctKeys msg_id entry s.dedup_cache d) in
      ground (arith, get-insert msg_id j entry s.dedup_cache, kept)

  record_response-HasDistinctKeys :
      (now gc_now msg_id : ℕ) (bytes : Bytes) (s : ReliabilityState F)
      → HasDistinctKeys s.dedup_cache
      → HasDistinctKeys (record_response now gc_now msg_id bytes s).dedup_cache
  unfolding record_response
  record_response-HasDistinctKeys now gc_now msg_id bytes s d =
      let entry : DedupEntry = record {
        response_bytes = bytes;
        expires = now + s.params.exchange_lifetime;
      } in
      let cache = HashMap.insert msg_id entry s.dedup_cache in
      let distinct = insert-HasDistinctKeys msg_id entry s.dedup_cache d in
      ground
        (arith, retain-HasDistinctKeys (λ _ (x : DedupEntry). ltb gc_now x.expires) cache distinct)

  check_dedup-HasDistinctKeys :
      (now msg_id : ℕ) (s : ReliabilityState F)
      → HasDistinctKeys s.dedup_cache
      → HasDistinctKeys (check_dedup now msg_id s).1.dedup_cache
  unfolding check_dedup
  check_dedup-HasDistinctKeys now msg_id s d =
      ground (arith, remove-HasDistinctKeys msg_id s.dedup_cache d)

-- The calls that reach the cache, the newest first.
pub data DedupCall : Type 0 where
  checked : ℕ → ℕ → DedupCall
  recorded : ℕ → ℕ → ℕ → Bytes → DedupCall

-- The clock reads no later than `t` and never runs back.
abbrev pub Ordered : ℕ → List DedupCall → Type 0
Ordered t [] = Unit
Ordered t (checked now _ ∷ calls) = (now ≤ t) × Ordered now calls
Ordered t (recorded now gc_now _ _ ∷ calls) = (now ≤ gc_now) × (gc_now ≤ t) × Ordered now calls

-- The specification: the last response recorded for the id, for one exchange lifetime.
pub last_response : ℕ → ℕ → ℕ → List DedupCall → Option Bytes
last_response lifetime t j [] = none
last_response lifetime t j (checked _ _ ∷ calls) = last_response lifetime t j calls
last_response lifetime t j (recorded now _ msg_id bytes ∷ calls) =
    let earlier = last_response lifetime t j calls in
    if nat_beq msg_id j then if leb (now + lifetime) t then none else some bytes else earlier

Ordered-mono : {t t' : ℕ} (calls : List DedupCall) → t ≤ t' → Ordered t calls → Ordered t' calls
Ordered-mono [] h o = tt
Ordered-mono (checked now msg_id ∷ calls) h o = (omega arith, o.1)
Ordered-mono (recorded now gc_now msg_id bytes ∷ calls) h o = (o.0, omega arith, o.2)

module _ {F : Type 0} (params : RetransmitParams F) where
  unfoldable pub run : List DedupCall → ReliabilityState F
  run [] = new params
  run (checked now msg_id ∷ calls) = (check_dedup now msg_id (run calls)).1
  run (recorded now gc_now msg_id bytes ∷ calls) =
      record_response now gc_now msg_id bytes (run calls)

  run-params : (calls : List DedupCall) → (run calls).params ≡ params
  unfolding run new check_dedup record_response
  run-params [] = refl
  run-params (checked now msg_id ∷ calls) = run-params calls
  run-params (recorded now gc_now msg_id bytes ∷ calls) = ground (arith, run-params calls)

  run-HasDistinctKeys : (calls : List DedupCall) → HasDistinctKeys (run calls).dedup_cache
  unfolding run
  run-HasDistinctKeys [] = unfold new in tt
  run-HasDistinctKeys (checked now msg_id ∷ calls) =
      check_dedup-HasDistinctKeys now msg_id (run calls) (run-HasDistinctKeys calls)
  run-HasDistinctKeys (recorded now gc_now msg_id bytes ∷ calls) =
      record_response-HasDistinctKeys now gc_now msg_id bytes (run calls)
        (run-HasDistinctKeys calls)

  remembered-run :
      (t j : ℕ) (calls : List DedupCall)
      → Ordered t calls
      → remembered t j (run calls) ≡ last_response params.exchange_lifetime t j calls
  unfolding run last_response
  remembered-run t j [] h = unfold new remembered HashMap.get in refl
  remembered-run t j (checked now msg_id ∷ calls) (h, o) =
      remembered-check_dedup now t msg_id j (run calls) h
      ∙ remembered-run t j calls (Ordered-mono calls h o)
  remembered-run t j (recorded now gc_now msg_id bytes ∷ calls) (h, k, o) = ground (
    arith,
    run-params calls,
    remembered-record_response now gc_now t msg_id j bytes (run calls) k
        (run-HasDistinctKeys calls),
    remembered-run t j calls (Ordered-mono calls (omega arith) o),
  )

  -- After any calls, in the order of their clock readings, `check_dedup` answers with the response
  -- last recorded for that message id, and with a new message when there is none or when an
  -- exchange lifetime has passed since. The collection of expired entries is not seen.
  pub check_dedup-refines :
      (t j : ℕ) (calls : List DedupCall)
      → Ordered t calls
      → (check_dedup t j (run calls)).0 ≡ answer (last_response params.exchange_lifetime t j calls)
  check_dedup-refines t j calls o =
      check_dedup-answer t j (run calls) ∙ ap answer (remembered-run t j calls o)

-- ===== src/Reliability/CacheSize.antt =====
-- How large the deduplication cache grows.
use coapum.Prelude.{
  ℕ, suc, ◌+◌, ◌≤◌, ◌<◌, ◌≡◌, ◌⊎◌, inl, inr, Bool-cases, true, none, ltb, All, length, Bytes,
  nat_eq, arith,
}
use coapum.HashMap
use coapum.HashMap.{HashMap}
use coapum.HashMap.Size.{length-insert, retain_of_All}
use coapum.HashMap.Entries.{insert-All, retain-All_passed}
use coapum.Reliability.{
  ReliabilityState, DedupEntry, max_dedup_entries, record_response, gc_dedup_cache,
}

abbrev pub IsLive : ℕ → ℕ × DedupEntry → Type 0
IsLive now x = ltb now x.1.expires ≡ true

module _ {F : Type 0} (now gc_now msg_id : ℕ) (bytes : Bytes) (s : ReliabilityState F) where
  -- After `record_response` the cache has at most 256 entries, or none of its entries has expired
  -- at the collection.
  pub record_response-bound :
      (length (record_response now gc_now msg_id bytes s).dedup_cache ≤ max_dedup_entries)
      ⊎ All (IsLive gc_now) (record_response now gc_now msg_id bytes s).dedup_cache
  unfolding record_response gc_dedup_cache
  record_response-bound =
      let entry : DedupEntry = record {
        response_bytes = bytes;
        expires = now + s.params.exchange_lifetime;
      } in
      let cache = HashMap.insert msg_id entry s.dedup_cache in
      elim (Bool-cases (ltb max_dedup_entries (length cache))) [
        | inl e ↦ rw e (inr (retain-All_passed (λ _ (x : DedupEntry). ltb gc_now x.expires) cache))
        | inr e ↦ rw e (inl (ground arith))
      ]

  -- While no entry has expired, a response for a new message id makes the cache one entry larger,
  -- whatever its size: the cache has no bound, and no oldest entry is evicted.
  pub record_response_grows :
      All (IsLive gc_now) s.dedup_cache
      → HashMap.get msg_id s.dedup_cache ≡ none
      → gc_now < now + s.params.exchange_lifetime
      → length (record_response now gc_now msg_id bytes s).dedup_cache ≡ suc (length s.dedup_cache)
  unfolding record_response
  record_response_grows h fresh later =
      let entry : DedupEntry = record {
        response_bytes = bytes;
        expires = now + s.params.exchange_lifetime;
      } in
      let live : ltb gc_now entry.expires ≡ true = ground arith in
      let all_live = insert-All (IsLive gc_now) msg_id entry s.dedup_cache h live in
      ground (
        arith,
        length-insert msg_id entry s.dedup_cache,
        retain_of_All (λ _ (x : DedupEntry). ltb gc_now x.expires)
            (HashMap.insert msg_id entry s.dedup_cache) all_live,
      )

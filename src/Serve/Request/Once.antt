-- ===== src/Serve/Request/Once.antt =====
-- A confirmable request and its retransmissions: one answer, and one run of the handlers.
use coapum.Prelude.{
  ◌≡◌, refl, sym, ap, ◌∙◌, ◌<◌, ◌+◌, ◌⊎◌, inl, inr, true, false, Bool-cases, some, Option-cases, [],
  ◌∷◌, Bytes, arith, ℕ, leb, ltb, length, nat_eq,
}
use coapum.HashMap
use coapum.HashMap.Laws.{get-insert_self, get-retain_of_passed}
use coapum.Coap.{confirmable}
use coapum.Reliability.{
  ReliabilityState, DedupEntry, new_message, duplicate, check_dedup, record_response,
  gc_dedup_cache, max_dedup_entries,
}
use coapum.Serve.{Server}
use coapum.Serve.Request.{
  Clock, Context, Conn, send_and_record, handle_new, handle_confirmable, handle_request,
  after_dedup, by_type, is_empty_code,
}
use coapum.Serve.Request.Replies.{KeepsHeader, IsReply, Sends, handle_new-Sends}

module _ {F : Type 0} where
  -- A recorded response is found under its message id until it expires.
  get-record_response :
      (now gc_now msg_id : ℕ) (bytes : Bytes) (s : ReliabilityState F)
      → gc_now < now + s.params.exchange_lifetime
      → HashMap.get msg_id (record_response now gc_now msg_id bytes s).dedup_cache
        ≡ some (record { response_bytes = bytes; expires = now + s.params.exchange_lifetime })
  unfolding record_response gc_dedup_cache
  get-record_response now gc_now msg_id bytes s later =
      let entry : DedupEntry = record {
        response_bytes = bytes;
        expires = now + s.params.exchange_lifetime;
      } in
      let cache = HashMap.insert msg_id entry s.dedup_cache in
      elim (Bool-cases (ltb max_dedup_entries (length cache))) [
        | inl e ↦ rw e (
            get-retain_of_passed (λ _ (x : DedupEntry). ltb gc_now x.expires) msg_id entry cache
              (get-insert_self msg_id entry s.dedup_cache) (ground arith))
        | inr e ↦ rw e (get-insert_self msg_id entry s.dedup_cache)
      ]

  -- A live entry is a duplicate, and stays.
  check_dedup-live :
      (now msg_id : ℕ) (entry : DedupEntry) (s : ReliabilityState F)
      → HashMap.get msg_id s.dedup_cache ≡ some entry
      → now < entry.expires
      → check_dedup now msg_id s ≡ (duplicate entry.response_bytes, s)
  unfolding check_dedup
  check_dedup-live now msg_id entry s e later =
      let live : leb entry.expires now ≡ false = ground arith in rw (e, live, e) refl

module _ (server : Server) where
  open server.coap use {Packet, get_type, code}

  abbrev pub IsRequest : Packet → Type 0
  IsRequest packet = (get_type packet ≡ confirmable) × (is_empty_code (code packet) ≡ false)

module _ (server : Server) (clock : Clock) (ctx : Context server.Sender) where
  open server.coap use {Packet, get_type, message_id, get_token, code, to_bytes}

  -- The connection after the lookup of duplicates.
  abbrev checked : Packet → Conn server → Conn server
  checked packet c = record c {
    reliability = (check_dedup clock.checked (message_id packet) c.reliability).1;
  }

  -- What a confirmable request comes to.
  handle_request-confirmable :
      (packet : Packet) (c : Conn server)
      → IsRequest server packet
      → handle_request server clock ctx packet c ≡ handle_confirmable server clock ctx packet c
  unfolding handle_request by_type
  handle_request-confirmable packet c (t, e) = rw (t, by_type, e) refl

  handle_confirmable-new :
      (packet : Packet) (c : Conn server)
      → (check_dedup clock.checked (message_id packet) c.reliability).0 ≡ new_message
      → handle_confirmable server clock ctx packet c
        ≡ handle_new server clock ctx true packet (record c {
          reliability = (check_dedup clock.checked (message_id packet) c.reliability).1;
        })
  unfolding handle_confirmable after_dedup
  handle_confirmable-new packet c e = rw (e, after_dedup) refl

  handle_confirmable-duplicate :
      (packet : Packet) (c : Conn server) (bytes : Bytes)
      → (check_dedup clock.checked (message_id packet) c.reliability).0 ≡ duplicate bytes
      → handle_confirmable server clock ctx packet c ≡ (
        bytes ∷ [],
        record c { reliability = (check_dedup clock.checked (message_id packet) c.reliability).1 },
      )
  unfolding handle_confirmable after_dedup
  handle_confirmable-duplicate packet c bytes e = rw (e, after_dedup) refl

  -- A new confirmable request is answered by nothing or by one datagram, which is the serialization
  -- of an acknowledgement with the request's message id and token; this holds if the fragments that
  -- the block handler makes of a response keep its message id and token.
  pub handle_request_replies :
      (packet : Packet) (c : Conn server)
      → IsRequest server packet
      → (check_dedup clock.checked (message_id packet) c.reliability).0 ≡ new_message
      → KeepsHeader server
      → ((handle_request server clock ctx packet c).0 ≡ [])
        ⊎ ((p : Packet) × (bytes : Bytes) × IsReply server true packet p
            × (to_bytes p ≡ some bytes)
            × ((handle_request server clock ctx packet c).0 ≡ bytes ∷ []))
  unfolding Sends send_and_record
  handle_request_replies packet c q e keeps =
      rw (handle_request-confirmable packet c q, handle_confirmable-new packet c e)
        (elim (handle_new-Sends server clock ctx true packet (checked packet c) keeps) [
          | inl (s, _) ↦ inl s
          | inr (p, c', is_reply, _, s) ↦ rw s (elim (Option-cases (to_bytes p)) [
            | inl f ↦ inl rw (send_and_record, f) refl
            | inr (bytes, f) ↦ inr (p, bytes, is_reply, f, rw (send_and_record, f) refl)
          ])
        ])

  -- What was sent for a confirmable request is in the cache.
  get-send_and_record :
      (msg_id : ℕ) (p : Packet) (b : Bytes) (c : Conn server)
      → (send_and_record server clock true msg_id p c).0 ≡ b ∷ []
      → clock.collected < clock.recorded + c.reliability.params.exchange_lifetime
      → HashMap.get msg_id (send_and_record server clock true msg_id p c).1.reliability.dedup_cache
        ≡ some (record {
          response_bytes = b;
          expires = clock.recorded + c.reliability.params.exchange_lifetime;
        })
  unfolding send_and_record
  get-send_and_record msg_id p b c s later = elim (Option-cases (to_bytes p)) [
    | inl f ↦ let s' = rw (send_and_record, f) at s in absurd (ground arith)
    | inr (bytes, f) ↦
        let s' = rw (send_and_record, f) at s in
        let same : bytes ≡ b = ground (arith, s') in
        rw (send_and_record, f, ← same)
          (get-record_response clock.recorded clock.collected msg_id bytes c.reliability later)
  ]

  -- The datagram that a new confirmable request was answered is in the cache.
  handle_request-caches :
      (packet : Packet) (b : Bytes) (c : Conn server)
      → IsRequest server packet
      → (check_dedup clock.checked (message_id packet) c.reliability).0 ≡ new_message
      → KeepsHeader server
      → (handle_request server clock ctx packet c).0 ≡ b ∷ []
      → clock.collected < clock.recorded + c.reliability.params.exchange_lifetime
      → HashMap.get
          (message_id packet)
          (handle_request server clock ctx packet c).1.reliability.dedup_cache
        ≡ some (record {
          response_bytes = b;
          expires = clock.recorded + c.reliability.params.exchange_lifetime;
        })
  unfolding Sends check_dedup
  handle_request-caches packet b c q e keeps s later =
      let s' = rw (handle_request-confirmable packet c q, handle_confirmable-new packet c e) at s in
      rw (handle_request-confirmable packet c q, handle_confirmable-new packet c e)
        (elim (handle_new-Sends server clock ctx true packet (checked packet c) keeps) [
          | inl (f, _) ↦ absurd (ground (arith, s', f))
          | inr (p, c', _, r, f) ↦
              let same : c'.reliability.params ≡ c.reliability.params = ap (λ x. x.params) r in
              let s'' = rw f at s' in
              rw f
                (rw (← same) (get-send_and_record (message_id packet) p b c' s'' (rw same later)))
        ])

module _ (server : Server) (ctx : Context server.Sender) where
  open server.coap use {Packet, message_id}

  -- A request whose answer is cached is sent it, and changes nothing.
  handle_request-cached :
      (clock : Clock) (packet : Packet) (entry : DedupEntry) (c : Conn server)
      → IsRequest server packet
      → HashMap.get (message_id packet) c.reliability.dedup_cache ≡ some entry
      → clock.checked < entry.expires
      → handle_request server clock ctx packet c ≡ (entry.response_bytes ∷ [], c)
  handle_request-cached clock packet entry c q e later =
      let live = check_dedup-live clock.checked (message_id packet) entry c.reliability e later in
      handle_request-confirmable server clock ctx packet c q
      ∙ handle_confirmable-duplicate server clock ctx packet c entry.response_bytes
          (ap (λ x. x.0) live)
      ∙ rw live refl

  -- A new confirmable request is answered once: while the recorded response lives, a retransmission of
  -- the request is sent the same datagram, and changes nothing, so that no handler runs again; this
  -- holds if the fragments that the block handler makes of a response keep its message id and token.
  pub handle_request_once :
      (clock clock' : Clock) (packet : Packet) (b : Bytes) (c : Conn server)
      → IsRequest server packet
      → (check_dedup clock.checked (message_id packet) c.reliability).0 ≡ new_message
      → KeepsHeader server
      → (handle_request server clock ctx packet c).0 ≡ b ∷ []
      → clock.collected < clock.recorded + c.reliability.params.exchange_lifetime
      → clock'.checked < clock.recorded + c.reliability.params.exchange_lifetime
      → handle_request server clock' ctx packet (handle_request server clock ctx packet c).1
        ≡ handle_request server clock ctx packet c
  handle_request_once clock clock' packet b c q e keeps s later later' =
      let result = handle_request server clock ctx packet c in
      handle_request-cached clock' packet _ result.1 q
        (handle_request-caches server clock ctx packet b c q e keeps s later) later'
      ∙ ap (λ x. (x, result.1)) (sym s)

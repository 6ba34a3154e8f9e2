-- ===== src/Serve/Request/Validity.antt =====
-- What a message leaves of the bounds of the connection's notifications.
use coapum.Prelude.{
  ◌≡◌, ◌<◌, refl, inl, inr, true, false, Bool, Bool-cases, Option, none, some, Option-cases, String,
  Bytes, any, arith, ℕ, leb, string_eq, nat_eq,
}
use coapum.HashMap
use coapum.HashMap.{HashMap}
use coapum.HashMap.Laws.{remove-HasDistinctKeys}
use coapum.HashMap.Size.{length-remove-le}
use coapum.HashMap.Entries.{remove-All}
use coapum.Coap.{
  RequestType, get, ObserveOption, MessageType, confirmable, non_confirmable, acknowledgement,
  reset,
}
use coapum.Observer.PathValidation.{Validation, ok, err, validate_observer_path}
use coapum.Reliability.{DedupResult, new_message, duplicate}
use coapum.Router.{CoapumRequest, has_observe_route}
use coapum.Serve.{Server, ObserveState, Interception, handled, not_handled, failed}
use coapum.Serve.Request.{
  Clock, Context, ObservePlan, dropped, planned, Conn, register_now, register_planned,
  send_and_record, block_reply, send_block_reply, plan_observe, respond, serve_request, handle_new,
  is_critical_unknown, handle_confirmable, handle_request, after_dedup, by_type, is_empty_code,
  send_fragment, plan_register, deregister_now, plan_flag, respond_planned, after_interception,
  on_reset, as_ack, next_sequence,
}
use coapum.Serve.Notification.Bounds.{IsMessageId, IsValid}

-- The state after a message id is no longer tracked.
pub untracked-IsValid :
    (msg_id : ℕ) (obs : ObserveState)
    → IsValid obs
    → IsValid (record obs { notification_msg_ids = HashMap.remove msg_id obs.notification_msg_ids })
untracked-IsValid msg_id obs v = record {
  sequence_bound = v.sequence_bound;
  msg_id_bound = v.msg_id_bound;
  ids = remove-All IsMessageId msg_id obs.notification_msg_ids v.ids;
  distinct = remove-HasDistinctKeys msg_id obs.notification_msg_ids v.distinct;
  few = omega (arith, v.few, length-remove-le msg_id obs.notification_msg_ids);
}

with_sequence-IsValid :
    (n : ℕ) (obs : ObserveState)
    → IsValid obs
    → n < 16777216
    → IsValid (record obs { sequence = n })
with_sequence-IsValid n obs v b = record {
  sequence_bound = b;
  msg_id_bound = v.msg_id_bound;
  ids = v.ids;
  distinct = v.distinct;
  few = v.few;
}

pub with_tokens-IsValid :
    (tokens : HashMap String Bytes) (obs : ObserveState)
    → IsValid obs
    → IsValid (record obs { observer_tokens = tokens })
with_tokens-IsValid tokens obs v = record {
  sequence_bound = v.sequence_bound;
  msg_id_bound = v.msg_id_bound;
  ids = v.ids;
  distinct = v.distinct;
  few = v.few;
}

next_sequence-bound : (n : ℕ) → next_sequence n < 16777216
unfolding next_sequence
next_sequence-bound n = omega arith

module _ (server : Server) (clock : Clock) (ctx : Context server.Sender) where
  open server use {coap, block, Sender, table, call_erased, backend}
  open server.coap use {
    Packet, get_type, message_id, get_token, is_error, get_status, options, to_bytes, code,
  }

  abbrev Valid : Conn server → Type 0
  Valid c = IsValid c.obs

  abbrev ValidPlan : ObservePlan (Conn server) → Type 0
  ValidPlan dropped = Unit {0}
  ValidPlan (planned pending c) = Valid c

  send_and_record-obs :
      (con : Bool) (msg_id : ℕ) (p : Packet) (c : Conn server)
      → (send_and_record server clock con msg_id p c).1.obs ≡ c.obs
  unfolding send_and_record
  send_and_record-obs con msg_id p c = elim (Option-cases (to_bytes p)) [
    | inl e ↦ rw (send_and_record, e) refl
    | inr (bytes, e) ↦ elim (Bool-cases con) [
      | inl f ↦ rw (send_and_record, e, f) refl
      | inr f ↦ rw (send_and_record, e, f) refl
    ]
  ]

  send_fragment-obs :
      (con : Bool) (msg_id : ℕ) (o : Option Packet) (c : Conn server)
      → (send_fragment server clock con msg_id o c).1.obs ≡ c.obs
  unfolding send_fragment
  send_fragment-obs con msg_id none c = refl
  send_fragment-obs con msg_id (some p) c = send_and_record-obs con msg_id (as_ack server con p) c

  send_block_reply-obs :
      (con : Bool) (packet : Packet) (o : Option Packet) (c : Conn server)
      → (send_block_reply server clock ctx con packet o c).1.obs ≡ c.obs
  unfolding send_block_reply
  send_block_reply-obs con packet none c = refl
  send_block_reply-obs con packet (some resp) c =
      send_and_record-obs con (message_id packet) (block_reply server ctx con packet resp) c

  register_now-Valid :
      (token : Bytes) (path : String) (resp : Packet) (c : Conn server)
      → Valid c
      → Valid (register_now server ctx token path resp c).1
  unfolding register_now
  register_now-Valid token path resp c v =
      elim (Bool-cases (backend.register ctx.identity path ctx.obs_tx c.router.db).0) [
        | inl e ↦ rw e (
            with_tokens-IsValid (HashMap.insert path token c.obs.observer_tokens) _ (
              with_sequence-IsValid (next_sequence c.obs.sequence) c.obs v
                (next_sequence-bound c.obs.sequence)))
        | inr e ↦ rw e v
      ]

  register_planned-Valid :
      (token : Bytes) (pending : Option String) (resp : Packet) (c : Conn server)
      → Valid c
      → Valid (register_planned server ctx token pending resp c).1
  unfolding register_planned
  register_planned-Valid token none resp c v = v
  register_planned-Valid token (some path) resp c v =
      elim (Bool-cases (is_error (get_status resp))) [
        | inl e ↦ rw e v
        | inr e ↦ rw e (register_now-Valid token path resp c v)
      ]

  respond-Valid :
      (con : Bool) (packet message : Packet) (req : CoapumRequest Packet) (pending : Option String)
      (c : Conn server)
      → Valid c
      → Valid (respond server clock ctx con packet message req pending c).1
  unfolding respond
  respond-Valid con packet message req pending c v =
      rw send_fragment-obs (register_planned-Valid (get_token packet) pending _ _ v)

  plan_register-ValidPlan :
      (w : Validation) (c : Conn server) → Valid c → ValidPlan (plan_register server ctx c w)
  unfolding plan_register
  plan_register-ValidPlan (err e) c v = tt
  plan_register-ValidPlan (ok path) c v =
      elim (Bool-cases (has_observe_route table path c.router)) [
        | inr e ↦ rw e v
        | inl e ↦
            elim (Bool-cases (
              leb ctx.max_observers_per_device (backend.observer_count ctx.identity c.router.db))) [
                | inl f ↦ rw (e, f) v
                | inr f ↦ rw (e, f) v
              ]
      ]

  deregister_now-ValidPlan :
      (w : Validation) (c : Conn server) → Valid c → ValidPlan (deregister_now server ctx c w)
  unfolding deregister_now
  deregister_now-ValidPlan (err e) c v = tt
  deregister_now-ValidPlan (ok path) c v = with_tokens-IsValid _ c.obs v

  plan_flag-ValidPlan :
      (path : String) (method : RequestType) (flag : Option ObserveOption) (c : Conn server)
      → Valid c
      → ValidPlan (plan_flag server ctx path method flag c)
  unfolding plan_flag
  plan_flag-ValidPlan path get (some ObserveOption.register) c v =
      plan_register-ValidPlan (validate_observer_path path) c v
  plan_flag-ValidPlan path get (some ObserveOption.deregister) c v =
      deregister_now-ValidPlan (validate_observer_path path) c v
  plan_flag-ValidPlan path _ _ c v = v

  respond_planned-Valid :
      (con : Bool) (packet message : Packet) (req : CoapumRequest Packet)
      (plan : ObservePlan (Conn server)) (c : Conn server)
      → Valid c
      → ValidPlan plan
      → Valid (respond_planned server clock ctx con packet message req plan c).1
  unfolding respond_planned
  respond_planned-Valid con packet message req dropped c v w = v
  respond_planned-Valid con packet message req (planned pending c') c v w =
      respond-Valid con packet message req pending c' w

  after_interception-Valid :
      (con : Bool) (packet : Packet) (outcome : Interception) (message : Packet)
      (resp : Option Packet) (c : Conn server)
      → Valid c
      → Valid (after_interception server clock ctx con packet outcome message resp c).1
  unfolding after_interception serve_request plan_observe
  after_interception-Valid con packet handled message resp c v = rw send_block_reply-obs v
  after_interception-Valid con packet failed message resp c v = rw send_block_reply-obs v
  after_interception-Valid con packet not_handled message resp c v =
      respond_planned-Valid con packet message _ _ c v (plan_flag-ValidPlan _ _ _ c v)

  handle_new-Valid :
      (con : Bool) (packet : Packet) (c : Conn server)
      → Valid c
      → Valid (handle_new server clock ctx con packet c).1
  unfolding handle_new
  handle_new-Valid con packet c v =
      elim (Bool-cases (any (is_critical_unknown server) (options packet))) [
        | inl e ↦ rw (e, send_and_record-obs) v
        | inr e ↦ rw e (after_interception-Valid con packet _ _ _ _ v)
      ]

  after_dedup-Valid :
      (packet : Packet) (result : DedupResult) (c : Conn server)
      → Valid c
      → Valid (after_dedup server clock ctx packet result c).1
  unfolding after_dedup
  after_dedup-Valid packet (duplicate bytes) c v = v
  after_dedup-Valid packet new_message c v = handle_new-Valid true packet c v

  on_reset-Valid :
      (packet : Packet) (c : Conn server)
      → Valid c
      → Valid (on_reset server ctx.identity (message_id packet) c)
  unfolding on_reset
  on_reset-Valid packet c v =
      elim (Option-cases (HashMap.get (message_id packet) c.obs.notification_msg_ids)) [
        | inl e ↦ rw (on_reset, e) v
        | inr (path, e) ↦
            rw (on_reset, e)
              (with_tokens-IsValid _ _ (untracked-IsValid (message_id packet) c.obs v))
      ]

  by_type-Valid :
      (kind : MessageType) (packet : Packet) (c : Conn server)
      → Valid c
      → Valid (by_type server clock ctx kind packet c).1
  unfolding by_type handle_confirmable
  by_type-Valid reset packet c v = on_reset-Valid packet c v
  by_type-Valid acknowledgement packet c v = v
  by_type-Valid confirmable packet c v = elim (Bool-cases (is_empty_code (code packet))) [
    | inl e ↦ rw e v
    | inr e ↦ rw e (after_dedup-Valid packet _ _ v)
  ]
  by_type-Valid non_confirmable packet c v = elim (Bool-cases (is_empty_code (code packet))) [
    | inl e ↦ rw e v
    | inr e ↦ rw e (handle_new-Valid false packet c v)
  ]

  pub handle_request-IsValid :
      (packet : Packet) (c : Conn server)
      → IsValid c.obs
      → IsValid (handle_request server clock ctx packet c).1.obs
  unfolding handle_request
  handle_request-IsValid packet c v = by_type-Valid (get_type packet) packet c v

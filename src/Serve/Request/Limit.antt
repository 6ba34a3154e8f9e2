-- ===== src/Serve/Request/Limit.antt =====
-- How many observers a device has after a request.
use coapum.Prelude.{
  ◌≡◌, refl, ◌≤◌, ◌<◌, inl, inr, Bool, true, false, Bool-cases, Option, none, some, Option-cases,
  String, Bytes, any, arith, ℕ, leb, max, suc, nat_eq,
}
use coapum.HashMap
use coapum.Coap.{
  RequestType, get, ObserveOption, MessageType, confirmable, non_confirmable, acknowledgement,
  reset,
}
use coapum.Observer.PathValidation.{Validation, ok, err, validate_observer_path}
use coapum.Reliability.{DedupResult, new_message, duplicate}
use coapum.Router.{CoapumRequest, has_observe_route}
use coapum.Router.Laws.{call-db}
use coapum.Serve.{Server, Interception, handled, not_handled, failed}
use coapum.Serve.Request.{
  Clock, Context, ObservePlan, dropped, planned, Conn, register_now, register_planned,
  send_and_record, block_reply, send_block_reply, plan_observe, respond, serve_request, handle_new,
  is_critical_unknown, handle_confirmable, handle_request, after_dedup, by_type, is_empty_code,
  send_fragment, plan_register, deregister_now, plan_flag, respond_planned, after_interception,
  on_reset, as_ack, unregister_observer,
}

module _ (server : Server) (clock : Clock) (ctx : Context server.Sender) where
  open server use {coap, block, Sender, table, call_erased, backend, Store}
  open server.coap use {
    Packet, get_type, message_id, get_token, is_error, get_status, options, to_bytes, code,
  }

  abbrev pub count : Store → ℕ
  count db = backend.observer_count ctx.identity db

  -- A registration adds at most one observer to its device, and a deregistration none.
  pub record CountsObservers : Type 0 where
    pub register_adds :
        (path : String) (tx : Sender) (db : Store)
        → count (backend.register ctx.identity path tx db).1 ≤ suc (count db)
    pub unregister_adds_none :
        (path : String) (db : Store) → count (backend.unregister ctx.identity path db).1 ≤ count db

  send_and_record-router :
      (con : Bool) (msg_id : ℕ) (p : Packet) (c : Conn server)
      → (send_and_record server clock con msg_id p c).1.router ≡ c.router
  unfolding send_and_record
  send_and_record-router con msg_id p c = elim (Option-cases (to_bytes p)) [
    | inl e ↦ rw (send_and_record, e) refl
    | inr (bytes, e) ↦ elim (Bool-cases con) [
      | inl f ↦ rw (send_and_record, e, f) refl
      | inr f ↦ rw (send_and_record, e, f) refl
    ]
  ]

  send_fragment-router :
      (con : Bool) (msg_id : ℕ) (o : Option Packet) (c : Conn server)
      → (send_fragment server clock con msg_id o c).1.router ≡ c.router
  unfolding send_fragment
  send_fragment-router con msg_id none c = refl
  send_fragment-router con msg_id (some p) c =
      send_and_record-router con msg_id (as_ack server con p) c

  send_block_reply-router :
      (con : Bool) (packet : Packet) (o : Option Packet) (c : Conn server)
      → (send_block_reply server clock ctx con packet o c).1.router ≡ c.router
  unfolding send_block_reply
  send_block_reply-router con packet none c = refl
  send_block_reply-router con packet (some resp) c =
      send_and_record-router con (message_id packet) (block_reply server ctx con packet resp) c

  module _ (n : ℕ) (counts : CountsObservers) where
    abbrev Within : Conn server → Type 0
    Within c = count c.router.db ≤ n

    -- A planned registration needs room for one observer.
    abbrev HasRoom : Option String → Conn server → Type 0
    HasRoom none c = count c.router.db ≤ n
    HasRoom (some path) c = count c.router.db < n

    abbrev PlanHasRoom : ObservePlan (Conn server) → Type 0
    PlanHasRoom dropped = Unit {0}
    PlanHasRoom (planned pending c) = HasRoom pending c

    register_now-Within :
        (token : Bytes) (path : String) (resp : Packet) (c : Conn server)
        → count c.router.db < n
        → Within (register_now server ctx token path resp c).1
    unfolding register_now
    register_now-Within token path resp c h =
        let grown = counts.register_adds path ctx.obs_tx c.router.db in
        elim (Bool-cases (backend.register ctx.identity path ctx.obs_tx c.router.db).0) [
          | inl e ↦ rw e (omega arith)
          | inr e ↦ rw e (omega arith)
        ]

    register_planned-Within :
        (token : Bytes) (pending : Option String) (resp : Packet) (c : Conn server)
        → HasRoom pending c
        → Within (register_planned server ctx token pending resp c).1
    unfolding register_planned
    register_planned-Within token none resp c h = h
    register_planned-Within token (some path) resp c h =
        elim (Bool-cases (is_error (get_status resp))) [
          | inl e ↦ rw e (omega arith)
          | inr e ↦ rw e (register_now-Within token path resp c h)
        ]

    HasRoom-of_eq :
        (pending : Option String) (c c' : Conn server)
        → c'.router.db ≡ c.router.db
        → HasRoom pending c
        → HasRoom pending c'
    HasRoom-of_eq none c c' e h = rw e h
    HasRoom-of_eq (some path) c c' e h = rw e h

    respond-Within :
        (con : Bool) (packet message : Packet) (req : CoapumRequest Packet)
        (pending : Option String) (c : Conn server)
        → HasRoom pending c
        → Within (respond server clock ctx con packet message req pending c).1
    unfolding respond
    respond-Within con packet message req pending c h = rw send_fragment-router (
        register_planned-Within (get_token packet) pending _ _
          (HasRoom-of_eq pending c _ (call-db coap table call_erased req c.router) h))

    plan_register-PlanHasRoom :
        (v : Validation) (c : Conn server)
        → ctx.max_observers_per_device ≤ n
        → Within c
        → PlanHasRoom (plan_register server ctx c v)
    unfolding plan_register
    plan_register-PlanHasRoom (err e) c m h = tt
    plan_register-PlanHasRoom (ok path) c m h =
        elim (Bool-cases (has_observe_route table path c.router)) [
          | inr e ↦ rw e h
          | inl e ↦ elim (Bool-cases (leb ctx.max_observers_per_device (count c.router.db))) [
            | inl f ↦ rw (e, f) h
            | inr f ↦ rw (e, f) (ground arith)
          ]
        ]

    deregister_now-PlanHasRoom :
        (v : Validation) (c : Conn server) → Within c → PlanHasRoom (deregister_now server ctx c v)
    unfolding deregister_now unregister_observer
    deregister_now-PlanHasRoom (err e) c h = tt
    deregister_now-PlanHasRoom (ok path) c h =
        let fewer = counts.unregister_adds_none path c.router.db in omega arith

    plan_flag-PlanHasRoom :
        (path : String) (method : RequestType) (flag : Option ObserveOption) (c : Conn server)
        → ctx.max_observers_per_device ≤ n
        → Within c
        → PlanHasRoom (plan_flag server ctx path method flag c)
    unfolding plan_flag
    plan_flag-PlanHasRoom path get (some ObserveOption.register) c m h =
        plan_register-PlanHasRoom (validate_observer_path path) c m h
    plan_flag-PlanHasRoom path get (some ObserveOption.deregister) c m h =
        deregister_now-PlanHasRoom (validate_observer_path path) c h
    plan_flag-PlanHasRoom path _ _ c m h = h

    respond_planned-Within :
        (con : Bool) (packet message : Packet) (req : CoapumRequest Packet)
        (plan : ObservePlan (Conn server)) (c : Conn server)
        → Within c
        → PlanHasRoom plan
        → Within (respond_planned server clock ctx con packet message req plan c).1
    unfolding respond_planned
    respond_planned-Within con packet message req dropped c h k = h
    respond_planned-Within con packet message req (planned pending c') c h k =
        respond-Within con packet message req pending c' k

    after_interception-Within :
        (con : Bool) (packet : Packet) (outcome : Interception) (message : Packet)
        (resp : Option Packet) (c : Conn server)
        → ctx.max_observers_per_device ≤ n
        → Within c
        → Within (after_interception server clock ctx con packet outcome message resp c).1
    unfolding after_interception serve_request plan_observe
    after_interception-Within con packet handled message resp c m h = rw send_block_reply-router h
    after_interception-Within con packet failed message resp c m h = rw send_block_reply-router h
    after_interception-Within con packet not_handled message resp c m h =
        respond_planned-Within con packet message _ _ c h (plan_flag-PlanHasRoom _ _ _ c m h)

    handle_new-Within :
        (con : Bool) (packet : Packet) (c : Conn server)
        → ctx.max_observers_per_device ≤ n
        → Within c
        → Within (handle_new server clock ctx con packet c).1
    unfolding handle_new
    handle_new-Within con packet c m h =
        elim (Bool-cases (any (is_critical_unknown server) (options packet))) [
          | inl e ↦ rw (e, send_and_record-router) h
          | inr e ↦ rw e (after_interception-Within con packet _ _ _ _ m h)
        ]

    after_dedup-Within :
        (packet : Packet) (result : DedupResult) (c : Conn server)
        → ctx.max_observers_per_device ≤ n
        → Within c
        → Within (after_dedup server clock ctx packet result c).1
    unfolding after_dedup
    after_dedup-Within packet (duplicate bytes) c m h = h
    after_dedup-Within packet new_message c m h = handle_new-Within true packet c m h

    on_reset-Within :
        (packet : Packet) (c : Conn server)
        → Within c
        → Within (on_reset server ctx.identity (message_id packet) c)
    unfolding on_reset unregister_observer
    on_reset-Within packet c h =
        elim (Option-cases (HashMap.get (message_id packet) c.obs.notification_msg_ids)) [
          | inl e ↦ rw (on_reset, e) h
          | inr (path, e) ↦
              let fewer = counts.unregister_adds_none path c.router.db in
              rw (on_reset, e) (omega arith)
        ]

    by_type-Within :
        (kind : MessageType) (packet : Packet) (c : Conn server)
        → ctx.max_observers_per_device ≤ n
        → Within c
        → Within (by_type server clock ctx kind packet c).1
    unfolding by_type handle_confirmable
    by_type-Within reset packet c m h = on_reset-Within packet c h
    by_type-Within acknowledgement packet c m h = h
    by_type-Within confirmable packet c m h = elim (Bool-cases (is_empty_code (code packet))) [
      | inl e ↦ rw e h
      | inr e ↦ rw e (after_dedup-Within packet _ _ m h)
    ]
    by_type-Within non_confirmable packet c m h = elim (Bool-cases (is_empty_code (code packet))) [
      | inl e ↦ rw e h
      | inr e ↦ rw e (handle_new-Within false packet c m h)
    ]

  -- No message, of whatever kind, brings a device above the limit of observers, or above the number
  -- that it had if this was above the limit; this holds if a registration adds at most one observer
  -- to its device and a deregistration adds none.
  pub handle_request-limit :
      (packet : Packet) (c : Conn server)
      → CountsObservers
      → count (handle_request server clock ctx packet c).1.router.db
        ≤ max ctx.max_observers_per_device (count c.router.db)
  unfolding handle_request
  handle_request-limit packet c counts =
      by_type-Within (max ctx.max_observers_per_device (count c.router.db)) counts (get_type packet)
        packet c (omega arith) (omega arith)

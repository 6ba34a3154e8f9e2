-- ===== src/Serve/Request.antt =====
-- `handle_request` of src/serve.rs, in the stages of the source: resets and acknowledgements, pings,
-- duplicates, critical options, block-wise transfer, observers, routing and the response.
pub mod Once
pub mod Replies
pub mod Limit
pub mod Validity
use coapum.Prelude.{
  ℕ, ◌+◌, ◌%◌, ◌/◌, ◌^◌, Bool, true, false, Option, none, some, List, [], ◌∷◌, String, Bytes,
  string_eq, nat_eq, any, not, leb, nat_beq, ◌&&◌, if◌then◌else◌,
}
use coapum.HashMap
use coapum.HashMap.{HashMap}
use coapum.Coap.{
  CoapLite, SocketAddr, MessageType, confirmable, non_confirmable, acknowledgement, reset,
  RequestType, get, ResponseType, bad_option, request_entity_too_large, MessageClass, response,
  ObserveOption,
}
use coapum.Reliability
use coapum.Reliability.{
  ReliabilityState, DedupResult, new_message, duplicate, check_dedup, record_response,
}
use coapum.Observer.PathValidation.{Validation, ok, err, validate_observer_path}
use coapum.Router
use coapum.Router.{
  RouteRecognizer, Methods, CoapRouter, CoapumRequest, has_observe_route, from_coap_request, call,
}
use coapum.Serve.{Server, ObserveState, Interception, handled, not_handled, failed, Connection}

-- The readings of the clock during one request: at the lookup of duplicates, at the recording of
-- the response, and at the collection that this may start.
pub record Clock : Type 0 where
  pub checked : ℕ
  pub recorded : ℕ
  pub collected : ℕ

-- What the connection tells `handle_request`.
pub record Context (Sender : Type 0) : Type 0 where
  pub socket_addr : SocketAddr
  pub identity : String
  pub obs_tx : Sender
  pub max_message_size : ℕ
  pub max_observers_per_device : ℕ

abbrev pub is_empty_code : MessageClass → Bool
is_empty_code MessageClass.empty = true
is_empty_code _ = false

abbrev pub is_too_large : MessageClass → Bool
is_too_large (response request_entity_too_large) = true
is_too_large _ = false

-- `wrapping_add(1) & 0x00FF_FFFF`
unfoldable pub next_sequence : ℕ → ℕ
next_sequence n = (n + 1) % 2 ^ 32 % 2 ^ 24

-- The four bytes of the size without its leading zeros, and at least one of them.
unfoldable pub size1_bytes : ℕ → Bytes
size1_bytes max_message_size =
    let n = max_message_size % 2 ^ 32 in
    let b0 = n / 16777216 in
    let b1 = n / 65536 % 256 in
    let b2 = n / 256 % 256 in
    let b3 = n % 256 in
    if not (nat_beq b0 0)
    then b0 ∷ b1 ∷ b2 ∷ b3 ∷ []
    else if not (nat_beq b1 0)
    then b1 ∷ b2 ∷ b3 ∷ []
    else if not (nat_beq b2 0)
    then b2 ∷ b3 ∷ []
    else b3 ∷ []

-- What the observe option of a request asks for, once its path was validated: nothing more, a
-- registration after the response, or no response at all.
pub data ObservePlan (C : Type 0) : Type 0 where
  dropped : ObservePlan C
  planned : Option String → C → ObservePlan C

module _ (server : Server) where
  open server use {coap, block, backend, table, call_erased, Routes, State, Store, Sender}
  open server.coap use {
    Packet, new_packet, get_type, set_type, message_id, set_message_id, get_token, set_token, code,
    set_code, set_observe_value, add_size1, options, is_known_option, to_bytes, get_status,
    is_error, prepare_response,
  }

  abbrev pub Conn : Type 0
  Conn = Connection server

  -- The datagram of a packet, if it can be serialized.
  abbrev pub sent : Packet → List Bytes
  sent p = elim (to_bytes p) [ none ↦ [] | some bytes ↦ bytes ∷ [] ]

  unfoldable pub unregister_observer :
      String → String → CoapRouter Routes State Store → CoapRouter Routes State Store
  unregister_observer identity path r = record r { db = (backend.unregister identity path r.db).1 }

  -- A reset of a notification deregisters its observer.
  unfoldable pub on_reset : String → ℕ → Conn → Conn
  unfolding unregister_observer
  on_reset identity msg_id c =
      let rel = (Reliability.handle_rst msg_id c.reliability).1 in
      elim (HashMap.get msg_id c.obs.notification_msg_ids) [
        | none ↦ record c { reliability = rel }
        | some path ↦ record c {
          obs = record (c.obs) {
            notification_msg_ids = HashMap.remove msg_id c.obs.notification_msg_ids;
            observer_tokens = HashMap.remove path c.obs.observer_tokens;
          };
          router = unregister_observer identity path c.router;
          reliability = rel;
        }
      ]

  unfoldable pub ping_reply : ℕ → Packet
  ping_reply msg_id =
      set_message_id msg_id (set_code MessageClass.empty (set_type reset new_packet))

  unfoldable pub is_critical_unknown : ℕ → Bool
  is_critical_unknown n = not (is_known_option n) && nat_beq (n % 2) 1

  -- A response is serialized, sent, and cached if the request was confirmable.
  unfoldable pub send_and_record : Clock → Bool → ℕ → Packet → Conn → List Bytes × Conn
  send_and_record clock con msg_id p c = elim (to_bytes p) [
    | none ↦ ([], c)
    | some bytes ↦ (
      bytes ∷ [],
      if con
          then record c {
            reliability = record_response clock.recorded clock.collected msg_id bytes c.reliability;
          }
          else c,
    )
  ]

  abbrev pub as_ack : Bool → Packet → Packet
  as_ack con p = if con then set_type acknowledgement p else p

  unfoldable pub bad_option_reply : Bool → Packet → Packet
  bad_option_reply con packet = as_ack con (
      set_code (response bad_option)
        (set_token (get_token packet) (set_message_id (message_id packet) new_packet)))

  -- What the block handler answered by itself.
  unfoldable pub block_reply : Context Sender → Bool → Packet → Packet → Packet
  unfolding size1_bytes
  block_reply ctx con packet resp = as_ack con (
      set_message_id (message_id packet) (
        set_token (get_token packet) (
          if is_too_large (code resp)
          then add_size1 (size1_bytes ctx.max_message_size) resp
          else resp)))

  unfoldable pub send_block_reply :
      Clock → Context Sender → Bool → Packet → Option Packet → Conn → List Bytes × Conn
  send_block_reply clock ctx con packet none c = ([], c)
  send_block_reply clock ctx con packet (some resp) c =
      send_and_record clock con (message_id packet) (block_reply ctx con packet resp) c

  -- A registration is planned for a route that can be observed, while the device is below its limit.
  plan_register : Context Sender → Conn → Validation → ObservePlan Conn
  plan_register ctx c (err e) = dropped
  plan_register ctx c (ok path) =
      if not (has_observe_route table path c.router)
      then planned none c
      else if leb ctx.max_observers_per_device (backend.observer_count ctx.identity c.router.db)
      then planned none c
      else planned (some path) c

  deregister_now : Context Sender → Conn → Validation → ObservePlan Conn
  unfolding unregister_observer
  deregister_now ctx c (err e) = dropped
  deregister_now ctx c (ok path) = planned none (record c {
    obs = record (c.obs) { observer_tokens = HashMap.remove path c.obs.observer_tokens };
    router = unregister_observer ctx.identity path c.router;
  })

  plan_flag : Context Sender → String → RequestType → Option ObserveOption → Conn → ObservePlan Conn
  unfolding plan_register deregister_now
  plan_flag ctx path get (some ObserveOption.register) c =
      plan_register ctx c (validate_observer_path path)
  plan_flag ctx path get (some ObserveOption.deregister) c =
      deregister_now ctx c (validate_observer_path path)
  plan_flag ctx path _ _ c = planned none c

  unfoldable pub plan_observe : Context Sender → CoapumRequest Packet → Conn → ObservePlan Conn
  unfolding plan_flag
  plan_observe ctx req c = plan_flag ctx req.path req.code req.observe_flag c

  -- The registration, and the response that confirms it.
  register_now : Context Sender → Bytes → String → Packet → Conn → Packet × Conn
  unfolding next_sequence
  register_now ctx token path resp c =
      let (registered, db) = backend.register ctx.identity path ctx.obs_tx c.router.db in
      let c' : Conn = record c { router = record (c.router) { db = db } } in
      let sequence = next_sequence c.obs.sequence in
      if registered
      then (
        set_observe_value sequence resp,
        record c' {
          obs = record (c.obs) {
            observer_tokens = HashMap.insert path token c.obs.observer_tokens;
            sequence = sequence;
          };
        },
      )
      else (resp, c')

  -- A planned registration is made once a handler has answered without an error.
  unfoldable pub register_planned :
      Context Sender → Bytes → Option String → Packet → Conn → Packet × Conn
  unfolding register_now
  register_planned ctx token none resp c = (resp, c)
  register_planned ctx token (some path) resp c =
      if is_error (get_status resp) then (resp, c) else register_now ctx token path resp c

  -- The fragment that the block handler leaves to send, if any.
  send_fragment : Clock → Bool → ℕ → Option Packet → Conn → List Bytes × Conn
  send_fragment clock con msg_id none c = ([], c)
  send_fragment clock con msg_id (some p) c = send_and_record clock con msg_id (as_ack con p) c

  -- From the router's call to the response.
  unfoldable pub respond :
      Clock
      → Context Sender
      → Bool
      → Packet
      → Packet
      → CoapumRequest Packet
      → Option String
      → Conn
      → List Bytes × Conn
  unfolding send_fragment
  respond clock ctx con packet packet_for_block2 req pending c =
      let (resp, router) = call coap table call_erased req c.router in
      let reply = set_message_id (message_id packet) (set_token (get_token packet) resp) in
      let (reply', c') =
        register_planned ctx (get_token packet) pending reply (record c { router = router }) in
      let (fragment, b) = block.intercept_response packet_for_block2 reply' c'.block_handler in
      send_fragment clock con (message_id packet) fragment (record c' { block_handler = b })

  respond_planned :
      Clock
      → Context Sender
      → Bool
      → Packet
      → Packet
      → CoapumRequest Packet
      → ObservePlan Conn
      → Conn
      → List Bytes × Conn
  respond_planned clock ctx con packet message req dropped c = ([], c)
  respond_planned clock ctx con packet message req (planned pending c') c =
      respond clock ctx con packet message req pending c'

  unfoldable pub serve_request :
      Clock → Context Sender → Bool → Packet → Packet → Option Packet → Conn → List Bytes × Conn
  unfolding respond_planned
  serve_request clock ctx con packet message prepared c =
      let req = record (from_coap_request coap message prepared ctx.socket_addr) {
        identity = ctx.identity;
      } in
      respond_planned clock ctx con packet message req (plan_observe ctx req c) c

  after_interception :
      Clock
      → Context Sender
      → Bool
      → Packet
      → Interception
      → Packet
      → Option Packet
      → Conn
      → List Bytes × Conn
  after_interception clock ctx con packet handled message resp c =
      send_block_reply clock ctx con packet resp c
  after_interception clock ctx con packet failed message resp c =
      send_block_reply clock ctx con packet resp c
  after_interception clock ctx con packet not_handled message resp c =
      serve_request clock ctx con packet message resp c

  -- A request that is no duplicate.
  unfoldable pub handle_new : Clock → Context Sender → Bool → Packet → Conn → List Bytes × Conn
  unfolding is_critical_unknown after_interception
  handle_new clock ctx con packet c =
      if any is_critical_unknown (options packet)
      then send_and_record clock con (message_id packet) (bad_option_reply con packet) c
      else (let (outcome, message, resp, b) =
            block.intercept_request packet (prepare_response packet) c.block_handler in
          after_interception clock ctx con packet outcome message resp
            (record c { block_handler = b }))

  after_dedup : Clock → Context Sender → Packet → DedupResult → Conn → List Bytes × Conn
  after_dedup clock ctx packet (duplicate cached_bytes) c = (cached_bytes ∷ [], c)
  after_dedup clock ctx packet new_message c = handle_new clock ctx true packet c

  unfoldable pub handle_confirmable : Clock → Context Sender → Packet → Conn → List Bytes × Conn
  unfolding after_dedup
  handle_confirmable clock ctx packet c =
      let (result, rel) = check_dedup clock.checked (message_id packet) c.reliability in
      after_dedup clock ctx packet result (record c { reliability = rel })

  by_type : Clock → Context Sender → MessageType → Packet → Conn → List Bytes × Conn
  by_type clock ctx reset packet c = ([], on_reset ctx.identity (message_id packet) c)
  by_type clock ctx acknowledgement packet c =
      ([], record c { reliability = (Reliability.handle_ack (message_id packet) c.reliability).1 })
  by_type clock ctx confirmable packet c =
      if is_empty_code (code packet)
      then (sent (ping_reply (message_id packet)), c)
      else handle_confirmable clock ctx packet c
  by_type clock ctx non_confirmable packet c =
      if is_empty_code (code packet) then ([], c) else handle_new clock ctx false packet c

  unfoldable pub handle_request : Clock → Context Sender → Packet → Conn → List Bytes × Conn
  unfolding by_type
  handle_request clock ctx packet c = by_type clock ctx (get_type packet) packet c

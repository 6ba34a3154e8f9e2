-- ===== src/Serve/Request/Replies.antt =====
-- What the answers to a request carry, and what is left alone on the way to them.
use coapum.Prelude.{
  ◌≡◌, refl, ◌∙◌, ◌⊎◌, inl, inr, Bool, true, false, Bool-cases, Option, none, some, List, [],
  String, Bytes, any, arith, leb,
}
use coapum.Observer.PathValidation.{Validation, ok, err, validate_observer_path}
use coapum.Coap.{reset, RequestType, get, ObserveOption, acknowledgement}
use coapum.Router.{has_observe_route, CoapumRequest}
use coapum.Serve.{Server, Interception, handled, not_handled, failed}
use coapum.Serve.Request.{
  handle_request, by_type, on_reset, Clock, Context, ObservePlan, dropped, planned, Conn, as_ack,
  register_now, register_planned, send_and_record, bad_option_reply, block_reply, send_fragment,
  plan_register, deregister_now, plan_flag, respond_planned, after_interception, send_block_reply,
  plan_observe, respond, serve_request, handle_new, is_critical_unknown,
}

module _ (server : Server) where
  open server use {coap, block, Sender, table, call_erased, backend}
  open server.coap use {
    Packet, get_type, message_id, get_token, token-set_code, token-set_token, message_id-set_code,
    message_id-set_token, message_id-set_message_id, type-set_type, token-set_type,
    message_id-set_type, token-set_message_id, token-set_observe_value,
    message_id-set_observe_value, is_error, get_status, options,
  }

  -- A fragment of a response has the response's message id and token.
  pub record KeepsHeader : Type 0 where
    pub id_kept :
        (req resp p : Packet) (b : server.Blocks)
        → (block.intercept_response req resp b).0 ≡ some p
        → message_id p ≡ message_id resp
    pub token_kept :
        (req resp p : Packet) (b : server.Blocks)
        → (block.intercept_response req resp b).0 ≡ some p
        → get_token p ≡ get_token resp

  -- An answer has the request's message id and token, and acknowledges a confirmable one.
  pub record IsReply (con : Bool) (packet p : Packet) : Type 0 where
    pub id_is : message_id p ≡ message_id packet
    pub token_is : get_token p ≡ get_token packet
    pub acknowledges : con ≡ true → get_type p ≡ acknowledgement

  as_ack-IsReply :
      (con : Bool) (packet p : Packet)
      → message_id p ≡ message_id packet
      → get_token p ≡ get_token packet
      → IsReply con packet (as_ack server con p)
  as_ack-IsReply true packet p i t = record {
    id_is = message_id-set_type _ _ ∙ i;
    token_is = token-set_type _ _ ∙ t;
    acknowledges = λ _. type-set_type _ _;
  }
  as_ack-IsReply false packet p i t = record {
    id_is = i;
    token_is = t;
    acknowledges = λ e. absurd (ground arith);
  }

  -- A step says nothing, or it sends one packet, which is a reply, and records it for a confirmable
  -- request; until then the reliability state is as before.
  unfoldable pub Sends : Clock → Bool → Packet → Conn server → List Bytes × Conn server → Type 0
  Sends clock con packet c result =
      ((result.0 ≡ []) × (result.1.reliability ≡ c.reliability))
      ⊎ ((p : Packet) × (c' : Conn server) × IsReply con packet p
          × (c'.reliability ≡ c.reliability)
          × (result ≡ send_and_record server clock con (message_id packet) p c'))

  module _ (clock : Clock) (ctx : Context Sender) (con : Bool) (packet : Packet) where
    send_block_reply-Sends :
        (resp : Option Packet) (c : Conn server)
        → Sends clock con packet c (send_block_reply server clock ctx con packet resp c)
    unfolding Sends send_block_reply block_reply
    send_block_reply-Sends none c = inl (refl, refl)
    send_block_reply-Sends (some resp) c = inr (
      _,
      c,
      as_ack-IsReply con packet _ (message_id-set_message_id _ _)
          (token-set_message_id _ _ ∙ token-set_token _ _),
      refl,
      refl,
    )

    bad_option_reply-IsReply : IsReply con packet (bad_option_reply server con packet)
    unfolding bad_option_reply
    bad_option_reply-IsReply =
        as_ack-IsReply con packet _
          (message_id-set_code _ _ ∙ message_id-set_token _ _ ∙ message_id-set_message_id _ _)
          (token-set_code _ _ ∙ token-set_token _ _)

    register_now-header :
        (token : Bytes) (path : String) (resp : Packet) (c : Conn server)
        → (message_id (register_now server ctx token path resp c).0 ≡ message_id resp)
          × (get_token (register_now server ctx token path resp c).0 ≡ get_token resp)
          × ((register_now server ctx token path resp c).1.reliability ≡ c.reliability)
    unfolding register_now
    register_now-header token path resp c =
        elim (Bool-cases (backend.register ctx.identity path ctx.obs_tx c.router.db).0) [
          | inl e ↦ rw e (message_id-set_observe_value _ _, token-set_observe_value _ _, refl)
          | inr e ↦ rw e (refl, refl, refl)
        ]

    pub register_planned-header :
        (token : Bytes) (pending : Option String) (resp : Packet) (c : Conn server)
        → (message_id (register_planned server ctx token pending resp c).0 ≡ message_id resp)
          × (get_token (register_planned server ctx token pending resp c).0 ≡ get_token resp)
          × ((register_planned server ctx token pending resp c).1.reliability ≡ c.reliability)
    unfolding register_planned
    register_planned-header token none resp c = (refl, refl, refl)
    register_planned-header token (some path) resp c =
        elim (Bool-cases (is_error (get_status resp))) [
          | inl e ↦ rw e (refl, refl, refl)
          | inr e ↦ rw e (register_now-header token path resp c)
        ]

    send_fragment-Sends :
        (o : Option Packet) (c c' : Conn server)
        → ((p : Packet) → o ≡ some p → IsReply con packet (as_ack server con p))
        → c'.reliability ≡ c.reliability
        → Sends clock con packet c (send_fragment server clock con (message_id packet) o c')
    unfolding Sends send_fragment
    send_fragment-Sends none c c' h e = inl (refl, e)
    send_fragment-Sends (some p) c c' h e = inr (as_ack server con p, c', h p refl, e, refl)

    respond-Sends :
        (message : Packet) (req : CoapumRequest Packet) (pending : Option String) (c : Conn server)
        → KeepsHeader
        → Sends clock con packet c (respond server clock ctx con packet message req pending c)
    unfolding respond
    respond-Sends message req pending c keeps =
        let (i, t, r) = register_planned-header (get_token packet) pending _ _ in
        send_fragment-Sends _ c _
          (λ p e.
            as_ack-IsReply con packet p
              (keeps.id_kept _ _ p _ e ∙ i ∙ message_id-set_message_id _ _)
              (keeps.token_kept _ _ p _ e ∙ t ∙ token-set_message_id _ _ ∙ token-set_token _ _))
          r

    -- Planning an observer leaves the reliability state alone.
    KeepsReliability : Conn server → ObservePlan (Conn server) → Type 0
    KeepsReliability c dropped = Unit
    KeepsReliability c (planned pending c') = c'.reliability ≡ c.reliability

    plan_register-KeepsReliability :
        (v : Validation) (c : Conn server) → KeepsReliability c (plan_register server ctx c v)
    unfolding KeepsReliability plan_register
    plan_register-KeepsReliability (err e) c = tt
    plan_register-KeepsReliability (ok path) c =
        elim (Bool-cases (has_observe_route table path c.router)) [
          | inr e ↦ rw e refl
          | inl e ↦
              elim (Bool-cases (
                leb ctx.max_observers_per_device
                  (backend.observer_count ctx.identity c.router.db))) [
                    | inl f ↦ rw (e, f) refl
                    | inr f ↦ rw (e, f) refl
                  ]
        ]

    deregister_now-KeepsReliability :
        (v : Validation) (c : Conn server) → KeepsReliability c (deregister_now server ctx c v)
    unfolding KeepsReliability deregister_now
    deregister_now-KeepsReliability (err e) c = tt
    deregister_now-KeepsReliability (ok path) c = refl

    plan_flag-KeepsReliability :
        (path : String) (method : RequestType) (flag : Option ObserveOption) (c : Conn server)
        → KeepsReliability c (plan_flag server ctx path method flag c)
    unfolding KeepsReliability plan_flag
    plan_flag-KeepsReliability path get (some ObserveOption.register) c =
        plan_register-KeepsReliability (validate_observer_path path) c
    plan_flag-KeepsReliability path get (some ObserveOption.deregister) c =
        deregister_now-KeepsReliability (validate_observer_path path) c
    plan_flag-KeepsReliability path _ _ c = refl

    respond_planned-Sends :
        (message : Packet) (req : CoapumRequest Packet) (plan : ObservePlan (Conn server))
        (c : Conn server)
        → KeepsHeader
        → KeepsReliability c plan
        → Sends clock con packet c (respond_planned server clock ctx con packet message req plan c)
    unfolding Sends respond_planned KeepsReliability
    respond_planned-Sends message req dropped c keeps k = inl (refl, refl)
    respond_planned-Sends message req (planned pending c') c keeps k =
        elim (respond-Sends message req pending c' keeps) [
          | inl (e, f) ↦ inl (e, f ∙ k)
          | inr (p, c'', is_reply, f, e) ↦ inr (p, c'', is_reply, f ∙ k, e)
        ]

    after_interception-Sends :
        (outcome : Interception) (message : Packet) (resp : Option Packet) (c : Conn server)
        → KeepsHeader
        → Sends clock con packet c
            (after_interception server clock ctx con packet outcome message resp c)
    unfolding after_interception serve_request plan_observe
    after_interception-Sends handled message resp c keeps = send_block_reply-Sends resp c
    after_interception-Sends failed message resp c keeps = send_block_reply-Sends resp c
    after_interception-Sends not_handled message resp c keeps =
        respond_planned-Sends message _ _ c keeps (plan_flag-KeepsReliability _ _ _ c)

    -- A request that is no duplicate is answered by nothing, or by one packet, which is a reply to
    -- it and is recorded if the request was confirmable.
    pub handle_new-Sends :
        (c : Conn server)
        → KeepsHeader
        → Sends clock con packet c (handle_new server clock ctx con packet c)
    unfolding handle_new bad_option_reply Sends
    handle_new-Sends c keeps =
        elim (Bool-cases (any (is_critical_unknown server) (options packet))) [
          | inl e ↦ rw e (inr (_, c, bad_option_reply-IsReply, refl, refl))
          | inr e ↦ rw e (after_interception-Sends _ _ _ (record c { block_handler = _ }) keeps)
        ]

    -- A reset is answered by nothing.
    pub handle_request-reset :
        (c : Conn server)
        → get_type packet ≡ reset
        → handle_request server clock ctx packet c
          ≡ ([], on_reset server ctx.identity (message_id packet) c)
    unfolding handle_request by_type
    handle_request-reset c t = rw (t, by_type) refl

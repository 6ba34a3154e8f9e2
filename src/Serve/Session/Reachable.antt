-- ===== src/Serve/Session/Reachable.antt =====
-- What holds of every connection that a session reaches.
use coapum.Prelude.{
  ◌≡◌, inl, inr, Option-cases, List, [], ◌∷◌, String, Bytes, string_eq, nat_eq, arith,
}
use coapum.HashMap
use coapum.Json.{Value}
use coapum.Reliability.{RetransmitAction, resend, give_up, process_retransmits}
use coapum.Serve
use coapum.Serve.{Server, Connection}
use coapum.Serve.Request.{Context, Conn}
use coapum.Serve.Request.Validity.{untracked-IsValid, with_tokens-IsValid, handle_request-IsValid}
use coapum.Serve.Notification.Bounds.{IsValid, handle_notification-IsValid}
use coapum.Serve.Session.{
  on_action, on_actions, on_timer, Event, packet_received, notified, timer_fired, step, Reaches,
  started, stepped,
}

new-IsValid : IsValid Serve.new
unfolding Serve.new
new-IsValid = record {
  sequence_bound = omega arith;
  msg_id_bound = omega arith;
  ids = tt;
  distinct = tt;
  few = omega arith;
}

module _ (server : Server) (identity : String) where
  on_action-IsValid :
      (action : RetransmitAction) (c : Conn server)
      → IsValid c.obs
      → IsValid (on_action server identity action c).1.obs
  unfolding on_action
  on_action-IsValid (resend msg_id bytes) c v = v
  on_action-IsValid (give_up msg_id) c v =
      elim (Option-cases (HashMap.get msg_id c.obs.notification_msg_ids)) [
        | inl e ↦ rw (on_action, e) v
        | inr (path, e) ↦
            rw (on_action, e) (with_tokens-IsValid _ _ (untracked-IsValid msg_id c.obs v))
      ]

  on_actions-IsValid :
      (actions : List RetransmitAction) (c : Conn server)
      → IsValid c.obs
      → IsValid (on_actions server identity actions c).1.obs
  unfolding on_actions
  on_actions-IsValid [] c v = v
  on_actions-IsValid (action ∷ actions) c v =
      on_actions-IsValid actions _ (on_action-IsValid action c v)

module _ {N : Type 0} (server : Server) (to_cbor to_json : Value N → Bytes)
    (ctx : Context server.Sender) where
  step-IsValid :
      (event : Event server N) (c : Conn server)
      → IsValid c.obs
      → IsValid (step server to_cbor to_json ctx event c).1.obs
  unfolding step on_timer
  step-IsValid (packet_received clock packet) c v =
      handle_request-IsValid server clock ctx packet c v
  step-IsValid (notified readings value) c v =
      handle_notification-IsValid server to_cbor to_json readings ctx.socket_addr value c v
  step-IsValid (timer_fired now) c v =
      on_actions-IsValid server ctx.identity (process_retransmits now c.reliability).0 _ v

  kept :
      (start c : Conn server)
      → Reaches server to_cbor to_json ctx start c
      → IsValid start.obs
      → IsValid c.obs
  kept start _ started v = v
  kept start _ (stepped {c = c} event r) v = step-IsValid event c (kept start c r v)

  -- In every connection that a session reaches from one without observations, sequence numbers have 24
  -- bits and message ids 16, and at most 256 notifications are tracked, whatever datagrams,
  -- notifications and timers came in whatever order.
  pub reachable-IsValid :
      (start c : Conn server)
      → start.obs ≡ Serve.new
      → Reaches server to_cbor to_json ctx start c
      → IsValid c.obs
  reachable-IsValid start c e r = kept start c r (rw e new-IsValid)

-- ===== src/Serve/Session.antt =====
-- The events of a connected client in the loop of `connection_task` of src/serve.rs: a datagram, a
-- notification, and the timer of retransmissions. The other events end the loop. `handle_timeout`
-- and the draining of DTLS are outside the model.
pub mod Reachable
use coapum.Prelude.{ℕ, ◌++◌, Option, none, some, List, [], ◌∷◌, String, Bytes, string_eq, nat_eq}
use coapum.HashMap
use coapum.Json.{Value}
use coapum.Coap.{SocketAddr}
use coapum.Reliability.{RetransmitAction, resend, give_up, process_retransmits}
use coapum.Observer.Channels.{ObserverValue}
use coapum.Serve
use coapum.Serve.{Server, Connection}
use coapum.Serve.Request.{Clock, Context, Conn, handle_request, unregister_observer}
use coapum.Serve.Notification.{Readings, handle_notification}

module _ (server : Server) (identity : String) where
  -- The client of a notification that was given up is deregistered.
  unfoldable pub on_action : RetransmitAction → Conn server → List Bytes × Conn server
  unfolding unregister_observer
  on_action (resend msg_id bytes) c = (bytes ∷ [], c)
  on_action (give_up msg_id) c = elim (HashMap.get msg_id c.obs.notification_msg_ids) [
    | none ↦ ([], c)
    | some path ↦ (
      [],
      record c {
        obs = record (c.obs) {
          notification_msg_ids = HashMap.remove msg_id c.obs.notification_msg_ids;
          observer_tokens = HashMap.remove path c.obs.observer_tokens;
        };
        router = unregister_observer server identity path c.router;
      },
    )
  ]

  unfoldable pub on_actions : List RetransmitAction → Conn server → List Bytes × Conn server
  on_actions [] c = ([], c)
  on_actions (action ∷ actions) c =
      let (sent, c') = on_action action c in
      let (more, c'') = on_actions actions c' in (sent ++ more, c'')

  unfoldable pub on_timer : ℕ → Conn server → List Bytes × Conn server
  on_timer now c =
      let (actions, rel) = process_retransmits now c.reliability in
      on_actions actions (record c { reliability = rel })

-- The events of a session.
pub data Event (server : Server) (N : Type 0) : Type 0 where
  packet_received : Clock → server.coap.Packet → Event server N
  notified : Readings → ObserverValue N → Event server N
  timer_fired : ℕ → Event server N

module _ {N : Type 0} (server : Server) (to_cbor to_json : Value N → Bytes)
    (ctx : Context server.Sender) where
  unfoldable pub step : Event server N → Conn server → List Bytes × Conn server
  step (packet_received clock packet) c = handle_request server clock ctx packet c
  step (notified readings value) c =
      handle_notification server to_cbor to_json readings ctx.socket_addr value c
  step (timer_fired now) c = on_timer server ctx.identity now c

  -- The connections that events lead to from `start`.
  pub data Reaches (start : Conn server) : Conn server → Type 0 where
    started : Reaches start start
    stepped :
        {c : Conn server}
        → (event : Event server N) → Reaches start c
        → Reaches start (step event c).1

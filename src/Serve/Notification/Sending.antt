-- ===== src/Serve/Notification/Sending.antt =====
-- A notification and the reset that answers it.
use coapum.Prelude.{ℕ, ◌≡◌, none, String, Bytes, string_eq, nat_eq}
use coapum.HashMap
use coapum.HashMap.{HashMap}
use coapum.Json.{Value}
use coapum.Coap.{SocketAddr}
use coapum.Observer.Channels.{ObserverValue}
use coapum.Reliability
use coapum.Router.{call_observer}
use coapum.Serve.{Server}
use coapum.Serve.Request.{Clock, Context, Conn}
use coapum.Serve.Notification.{Readings, handle_notification}

module _ {N : Type 0} (server : Server) (to_cbor to_json : Value N → Bytes) where
  open server.coap use {Packet, to_bytes, get_status, get_type, message_id}

  module _ (readings : Readings) (remote : SocketAddr) (value : ObserverValue N)
      (c : Conn server) where
    -- What the handler of the route answers to the notification's request.
    abbrev pub handler_answer : Packet
    handler_answer =
        (call_observer server.coap server.table server.call_erased value.path
          (server.coap.prepare_response server.coap.new_packet) remote c.router).0

    abbrev pub notified : Conn server
    notified = (handle_notification server to_cbor to_json readings remote value c).1

-- What a reset of a tracked message id leaves of the connection.
module _ (server : Server) (clock : Clock) (ctx : Context server.Sender) where
  open server.coap use {Packet, get_type, message_id}

  -- The observer of a path is gone, with its token, and no message with the id is repeated.
  pub record IsDeregistered (msg_id : ℕ) (path : String) (db : server.Store) (c : Conn server)
      : Type 0 where
    pub token_gone : HashMap.get path c.obs.observer_tokens ≡ none
    pub id_gone : HashMap.get msg_id c.obs.notification_msg_ids ≡ none
    pub stopped : HashMap.get msg_id c.reliability.pending_cons ≡ none
    pub unregistered : c.router.db ≡ (server.backend.unregister ctx.identity path db).1

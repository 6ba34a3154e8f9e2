-- ===== src/Serve/Notification.antt =====
-- `handle_notification` of src/serve.rs. `to_cbor` and `to_json` are the serializers `ciborium` and
-- `serde_json`; what they write of a value that they refuse is their business.
pub mod Bounds
pub mod Sending
use coapum.Prelude.{
  ℕ, ◌+◌, ◌-◌, ◌%◌, Bool, true, false, Option, none, some, List, [], ◌∷◌, String, Bytes, string_eq,
  nat_eq, length, ltb, if◌then◌else◌,
}
use coapum.HashMap
use coapum.HashMap.{HashMap}
use coapum.Json.{Value}
use coapum.Coap.{SocketAddr, confirmable, non_confirmable, ResponseType, bad_request}
use coapum.Reliability.{track_outgoing_con}
use coapum.Observer.Channels.{ObserverValue}
use coapum.Router.{is_confirmable_notify, call_observer}
use coapum.Serve.{Server, ObserveState, Connection}
use coapum.Serve.Request.{next_sequence, Conn}

abbrev pub is_bad_request : ResponseType → Bool
is_bad_request bad_request = true
is_bad_request _ = false

-- The subtraction of `u16`.
abbrev pub wrapping_sub : ℕ → ℕ → ℕ
wrapping_sub a b = (a + 65536 - b) % 65536

abbrev pub max_tracked : ℕ
max_tracked = 256

-- The bound on the map of message ids.
unfoldable pub bound_ids : ℕ → HashMap ℕ String → HashMap ℕ String
bound_ids msg_id ids =
    let cutoff = wrapping_sub msg_id 128 in
    if ltb max_tracked (length ids)
    then HashMap.retain (λ id _. ltb (wrapping_sub id cutoff) 256) ids
    else ids

-- The sequence number, the message id and the tracked path of a notification.
unfoldable pub next_notification : String → ObserveState → ObserveState
unfolding bound_ids next_sequence
next_notification path obs = record obs {
  sequence = next_sequence obs.sequence;
  next_msg_id = (obs.next_msg_id + 1) % 65536;
  notification_msg_ids =
      bound_ids obs.next_msg_id (HashMap.insert obs.next_msg_id path obs.notification_msg_ids);
}

-- The readings that the tracking of a notification takes: the clock and the random draw.
pub record Readings : Type 0 where
  pub now : ℕ
  pub draw : ℕ

module _ {N : Type 0} (server : Server) (to_cbor to_json : Value N → Bytes) where
  open server use {block, table, call_erased, float}
  open server.coap use {
    Packet, new_packet, set_type, set_message_id, set_token, set_payload, set_observe_value,
    to_bytes, get_status, prepare_response, is_cbor,
  }

  abbrev with_token : Option Bytes → Packet → Packet
  with_token none p = p
  with_token (some token) p = set_token token p

  -- The handler's answer with the notification's value and headers.
  unfoldable pub notification : ObserverValue N → Bool → ObserveState → Packet → Packet
  unfolding next_sequence
  notification value con obs resp =
      let payload = if is_cbor resp then to_cbor value.value else to_json value.value in
      set_type (if con then confirmable else non_confirmable) (
        set_message_id obs.next_msg_id (
          set_observe_value (next_sequence obs.sequence)
            (with_token (HashMap.get value.path obs.observer_tokens) (set_payload payload resp))))

  -- The fragment that is sent, and tracked if it wants an acknowledgement.
  unfoldable pub send_notification :
      Readings → Bool → ℕ → Option Packet → Conn server → List Bytes × Conn server
  send_notification readings con msg_id none c = ([], c)
  send_notification readings con msg_id (some p) c = elim (to_bytes p) [
    | none ↦ ([], c)
    | some bytes ↦ (
      bytes ∷ [],
      if con
          then record c {
            reliability =
                track_outgoing_con float readings.now readings.draw msg_id bytes c.reliability;
          }
          else c,
    )
  ]

  unfoldable pub notify_with :
      Readings → ObserverValue N → Packet → Conn server → List Bytes × Conn server
  unfolding send_notification next_notification notification
  notify_with readings value resp c =
      if is_bad_request (get_status resp)
      then ([], c)
      else (let con = is_confirmable_notify table value.path c.router in
          let p = notification value con c.obs resp in
          let (fragment, b) = block.intercept_response p p c.block_handler in
          send_notification readings con c.obs.next_msg_id fragment
            (record c { obs = next_notification value.path c.obs; block_handler = b }))

  unfoldable pub handle_notification :
      Readings → SocketAddr → ObserverValue N → Conn server → List Bytes × Conn server
  unfolding notify_with
  handle_notification readings remote value c =
      let (resp, router) =
        call_observer server.coap table call_erased value.path (prepare_response new_packet) remote
          c.router in
      notify_with readings value resp (record c { router = router })

-- ===== src/Serve/Notification/Bounds.antt =====
-- What bounds the state of a connection's notifications.
use coapum.Prelude.{
  ℕ, ◌≤◌, ◌<◌, ◌≡◌, refl, Bool, true, Bool-cases, inl, inr, Option, none, some, Option-cases, [],
  ◌∷◌, String, Bytes, nat_eq, All, length, ltb, arith,
}
use coapum.HashMap
use coapum.HashMap.{HashMap, HasDistinctKeys}
use coapum.HashMap.Laws.{insert-HasDistinctKeys, retain-HasDistinctKeys}
use coapum.HashMap.Size.{length-le-of_rename_lt}
use coapum.HashMap.Entries.{insert-All, retain-All_passed, retain-All}
use coapum.Json.{Value}
use coapum.Coap.{SocketAddr}
use coapum.Observer.Channels.{ObserverValue}
use coapum.Router.{call_observer}
use coapum.Serve.{Server, ObserveState}
use coapum.Serve.Request.{Conn, next_sequence}
use coapum.Serve.Notification.{
  Readings, wrapping_sub, max_tracked, bound_ids, next_notification, is_bad_request,
  send_notification, notify_with, handle_notification,
}

-- The entry has a message id of 16 bits.
abbrev pub IsMessageId : ℕ × String → Type 0
IsMessageId x = x.0 < 65536

-- Sequence numbers have 24 bits and message ids 16, and at most 256 notifications are tracked.
pub record IsValid (obs : ObserveState) : Type 0 where
  pub sequence_bound : obs.sequence < 16777216
  pub msg_id_bound : obs.next_msg_id < 65536
  pub ids : All IsMessageId obs.notification_msg_ids
  pub distinct : HasDistinctKeys obs.notification_msg_ids
  pub few : length obs.notification_msg_ids ≤ max_tracked

wrapping_sub-inj :
    (c a b : ℕ) → c < 65536 → a < 65536 → b < 65536 → wrapping_sub a c ≡ wrapping_sub b c → a ≡ b
wrapping_sub-inj c a b hc ha hb e = omega arith

-- The ids that are within 256 of the cutoff.
abbrev IsRecent : ℕ → ℕ × String → Type 0
IsRecent cutoff x = wrapping_sub x.0 cutoff < 256

recent :
    (cutoff : ℕ) (m : HashMap ℕ String)
    → All (λ (x : ℕ × String). ltb (wrapping_sub x.0 cutoff) 256 ≡ true) m
    → All (IsRecent cutoff) m
recent cutoff [] h = tt
recent cutoff (x ∷ m) (p, h) = (ground arith, recent cutoff m h)

bound_ids-length :
    (msg_id : ℕ) (m : HashMap ℕ String)
    → All IsMessageId m
    → HasDistinctKeys m
    → length (bound_ids msg_id m) ≤ max_tracked
unfolding bound_ids
bound_ids-length msg_id m h d = elim (Bool-cases (ltb max_tracked (length m))) [
  | inr e ↦ rw e (ground arith)
  | inl e ↦
      let cutoff = wrapping_sub msg_id 128 in
      let near = λ (id : ℕ) (_ : String). ltb (wrapping_sub id cutoff) 256 in
      let kept = HashMap.retain near m in
      rw e (
        length-le-of_rename_lt (λ a. a < 65536) (λ a. wrapping_sub a cutoff)
          (λ a b ha hb same. wrapping_sub-inj cutoff a b (omega arith) ha hb same) 256 kept
          (retain-All IsMessageId near m h) (recent cutoff kept (retain-All_passed near m))
          (retain-HasDistinctKeys near m d))
]

bound_ids-All :
    (msg_id : ℕ) (m : HashMap ℕ String) → All IsMessageId m → All IsMessageId (bound_ids msg_id m)
unfolding bound_ids
bound_ids-All msg_id m h = elim (Bool-cases (ltb max_tracked (length m))) [
  | inr e ↦ rw e h
  | inl e ↦ rw e (retain-All IsMessageId _ m h)
]

bound_ids-HasDistinctKeys :
    (msg_id : ℕ) (m : HashMap ℕ String) → HasDistinctKeys m → HasDistinctKeys (bound_ids msg_id m)
unfolding bound_ids
bound_ids-HasDistinctKeys msg_id m d = elim (Bool-cases (ltb max_tracked (length m))) [
  | inr e ↦ rw e d
  | inl e ↦ rw e (retain-HasDistinctKeys _ m d)
]

next_notification-IsValid :
    (path : String) (obs : ObserveState) → IsValid obs → IsValid (next_notification path obs)
unfolding next_notification next_sequence
next_notification-IsValid path obs v =
    let ids' = HashMap.insert obs.next_msg_id path obs.notification_msg_ids in
    let all' : All IsMessageId ids' =
      insert-All IsMessageId obs.next_msg_id path obs.notification_msg_ids v.ids v.msg_id_bound in
    let distinct' =
      insert-HasDistinctKeys obs.next_msg_id path obs.notification_msg_ids v.distinct in
    record {
      sequence_bound = omega arith;
      msg_id_bound = omega arith;
      ids = bound_ids-All obs.next_msg_id ids' all';
      distinct = bound_ids-HasDistinctKeys obs.next_msg_id ids' distinct';
      few = bound_ids-length obs.next_msg_id ids' all' distinct';
    }

module _ {N : Type 0} (server : Server) (to_cbor to_json : Value N → Bytes) where
  open server.coap use {Packet, to_bytes, get_status}

  pub send_notification-obs :
      (readings : Readings) (con : Bool) (msg_id : ℕ) (o : Option Packet) (c : Conn server)
      → (send_notification server to_cbor to_json readings con msg_id o c).1.obs ≡ c.obs
  unfolding send_notification
  send_notification-obs readings con msg_id none c = refl
  send_notification-obs readings con msg_id (some p) c = elim (Option-cases (to_bytes p)) [
    | inl e ↦ rw (send_notification, e) refl
    | inr (bytes, e) ↦ elim (Bool-cases con) [
      | inl f ↦ rw (send_notification, e, f) refl
      | inr f ↦ rw (send_notification, e, f) refl
    ]
  ]

  -- A notification keeps the bounds: its sequence number has 24 bits and its message id 16, and the
  -- connection tracks at most 256 message ids afterwards.
  pub handle_notification-IsValid :
      (readings : Readings) (remote : SocketAddr) (value : ObserverValue N) (c : Conn server)
      → IsValid c.obs
      → IsValid (handle_notification server to_cbor to_json readings remote value c).1.obs
  unfolding handle_notification notify_with
  handle_notification-IsValid readings remote value c v =
      let resp =
        (call_observer server.coap server.table server.call_erased value.path
          (server.coap.prepare_response server.coap.new_packet) remote c.router).0 in
      elim (Bool-cases (is_bad_request (get_status resp))) [
        | inl e ↦ rw e v
        | inr e ↦ rw (e, send_notification-obs) (next_notification-IsValid value.path c.obs v)
      ]

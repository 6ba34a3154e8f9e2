-- ===== src/Serve/Tests.antt =====
-- Runs of src/serve.rs, and its theorems at concrete inputs.
use coapum.Prelude.{
  All, ℕ, suc, ◌-◌, ◌≤◌, ◌≡◌, ◌↔◌, ◌⊎◌, refl, true, none, some, [], ◌∷◌, String, Bytes, codes,
  string_eq, nat_eq, arith, max, length,
}
use coapum.HashMap
use coapum.HashMap.{HashMap}
use coapum.Json.{Value, number}
use coapum.Coap.{reset, get, response, ResponseType, ObserveOption}
use coapum.Samples.{thousandths}
use coapum.Samples.Packets.{Packet, blank, plain_coap, exact_routes}
use coapum.Observer.Channels.{ObserverValue}
use coapum.Reliability.{new_message, check_dedup}
use coapum.Router.{Methods, method_eq, observing, call, lookup, from_coap_request}
use coapum.Serve.{Server, Connection, BlockHandler, Backend, not_handled}
use coapum.Serve.Identity.{extract_identity}
use coapum.Serve.Identity.Laws.{extract_identity-eq-some_iff, IsIdentityByte}
use coapum.Serve.Registry.{Connections, manage_connection, disconnect, cleanup}
use coapum.Serve.Registry.Laws.{
  MayConnect, manage_connection-allowed_iff, reconnects-IsBounded, IsBounded, cleanup_frees,
}
use coapum.Serve.Request.{
  Clock, Context, handle_request, handle_confirmable, handle_new, serve_request, plan_observe,
  respond, register_planned, send_and_record,
}
use coapum.Serve.Request.Replies.{KeepsHeader, IsReply}
use coapum.Serve.Request.Once.{handle_request_replies, handle_request_once}
use coapum.Serve.Request.Limit.{CountsObservers, count, handle_request-limit}
use coapum.Serve
use coapum.Serve.Session.{started, stepped, timer_fired, notified as told, packet_received, step}
use coapum.Serve.Session.Reachable.{reachable-IsValid}
use coapum.Serve.Notification.{Readings}
use coapum.Serve.Notification.Bounds.{IsValid}
use coapum.Serve.Notification.Sending.{notified}

abbrev temp : String
temp = codes "/temp"

-- A block handler that lets everything pass, and a backend that counts its observers.
abbrev passing : BlockHandler Packet ℕ
passing = record {
  intercept_request = λ p prepared b. (not_handled, p, prepared, b);
  intercept_response = λ req resp b. (some resp, b);
}

abbrev counting : Backend ℕ ℕ
counting = record {
  register = λ id path tx db. (true, suc db);
  unregister = λ id path db. (true, db - 1);
  unregister_device = λ id db. (true, 0);
  observer_count = λ id db. db;
}

abbrev server : Server
server = record {
  coap = plain_coap;
  float = thousandths;
  Blocks = ℕ;
  Routes = HashMap String (Methods ℕ);
  State = ℕ;
  Store = ℕ;
  Handler = ℕ;
  Sender = ℕ;
  block = passing;
  backend = counting;
  table = exact_routes;
  call_erased = λ h req s.
      (record blank { code = response (ResponseType.other 69); payload = h ∷ [] }, suc s);
}

abbrev connection : Connection server
connection = record {
  router = record { inner = (temp, (get, observing true 3 4) ∷ []) ∷ []; state = 0; db = 1 };
  obs = record { sequence = 0; next_msg_id = 1; notification_msg_ids = []; observer_tokens = [] };
  block_handler = 0;
  reliability = record {
    params = record {
      ack_timeout = 2;
      ack_random_factor = 1500;
      max_retransmit = 4;
      exchange_lifetime = 100;
    };
    pending_cons = [];
    dedup_cache = [];
  };
}

abbrev context : Context ℕ
context = record {
  socket_addr = [];
  identity = codes "d1";
  obs_tx = 0;
  max_message_size = 1024;
  max_observers_per_device = 10;
}

abbrev at_once : Clock
at_once = record { checked = 5; recorded = 6; collected = 7 }

abbrev later : Clock
later = record { checked = 50; recorded = 51; collected = 52 }

abbrev observe_temp : Packet
observe_temp = record blank {
  message_id = 77;
  token = 9 ∷ [];
  path = temp;
  observe = some ObserveOption.register;
}

abbrev readings : Readings
readings = record { now = 8; draw = 0 }

abbrev news : ObserverValue ℕ
news = record { value = number 21; path = temp }

abbrev rst : Packet
rst = record blank { message_type = reset; message_id = 1 }

keeps : KeepsHeader server
keeps = record {
  id_kept = λ req resp p b e. ground (arith, e);
  token_kept = λ req resp p b e. ground (arith, e);
}

counts : CountsObservers server at_once context
counts = record {
  register_adds = λ path tx db. omega arith;
  unregister_adds_none = λ path db. omega arith;
}

unseen : (check_dedup at_once.checked 77 connection.reliability).0 ≡ new_message
unfolding check_dedup HashMap.get
unseen = refl

handle_request_replies_example :
    ((handle_request server at_once context observe_temp connection).0 ≡ [])
    ⊎ ((p : Packet) × (bytes : Bytes) × IsReply server true observe_temp p
        × (some (p.message_id ∷ p.payload) ≡ some bytes)
        × ((handle_request server at_once context observe_temp connection).0 ≡ bytes ∷ []))
handle_request_replies_example =
    handle_request_replies server at_once context observe_temp connection (refl, refl) unseen keeps

handle_request-limit_example :
    count server at_once context
      (handle_request server at_once context observe_temp connection).1.router.db
    ≤ max 10 1
handle_request-limit_example =
    handle_request-limit server at_once context observe_temp connection counts

abbrev get_temp : Packet
get_temp = record observe_temp { observe = none }

answered : (handle_request server at_once context get_temp connection).0 ≡ (77 ∷ 3 ∷ []) ∷ []
unfolding handle_request handle_confirmable check_dedup handle_new serve_request plan_observe
    respond register_planned send_and_record from_coap_request call lookup HashMap.get method_eq
answered = refl

handle_request_once_example :
    handle_request server later context get_temp
      (handle_request server at_once context get_temp connection).1
    ≡ handle_request server at_once context get_temp connection
handle_request_once_example =
    handle_request_once server context at_once later get_temp (77 ∷ 3 ∷ []) connection (refl, refl)
      unseen keeps answered (omega arith) (omega arith)

abbrev to_text : Value ℕ → Bytes
to_text v = 0 ∷ []

extract_identity-eq-some_iff_example : (extract_identity (codes "d1") ≡ some (codes "d1")) ↔ (
    (codes "d1" ≡ codes "d1")
    × (1 ≤ length (codes "d1"))
    × (length (codes "d1") ≤ 256)
    × All IsIdentityByte (codes "d1"))
extract_identity-eq-some_iff_example = extract_identity-eq-some_iff (codes "d1") (codes "d1")

abbrev table : Connections ℕ
table =
    (codes "d1", record { sender = 4; established_at = 10; source_addr = []; reconnect_count = 2 })
    ∷ []

manage_connection-allowed_iff_example :
    ((manage_connection (codes "d1") [] 5 5 2 20 20 table).allowed ≡ true)
    ↔ MayConnect 5 2 20 (HashMap.get (codes "d1") table)
manage_connection-allowed_iff_example =
    manage_connection-allowed_iff (codes "d1") [] 5 5 2 20 20 table

abbrev none_left : String → ℕ → ℕ
none_left id db = 0

reconnects-IsBounded_example :
    All (IsBounded 2) (manage_connection (codes "d1") [] 5 5 2 20 20 table).connections
    × All (IsBounded 2) (cleanup none_left (some (codes "d1")) (table, 7)).0
reconnects-IsBounded_example =
    reconnects-IsBounded none_left (codes "d1") [] 5 5 2 20 20 table 7 (omega arith, tt)

cleanup_frees_example :
    (disconnect (codes "d1") (cleanup none_left (some (codes "d1")) (table, 7)).0 ≡ [])
    × ((cleanup none_left (some (codes "d1")) (table, 7)).1 ≡ none_left (codes "d1") 7)
    × (HashMap.get
          (codes "d1")
          (manage_connection
            (codes "d1")
            []
            6
            5
            2
            21
            21
            (cleanup none_left (some (codes "d1")) (table, 7)).0).connections
        ≡ some (record { sender = 6; established_at = 21; source_addr = []; reconnect_count = 0 }))
cleanup_frees_example = cleanup_frees none_left (codes "d1") [] 6 5 2 21 21 table 7

fresh : connection.obs ≡ Serve.new
unfolding Serve.new
fresh = refl

reachable-IsValid_example :
    IsValid
      (step server to_text to_text context
        (timer_fired 30)
        (step server to_text to_text context
          (told readings news)
          (step server to_text to_text context
            (packet_received at_once observe_temp)
            connection).1).1).1.obs
reachable-IsValid_example = reachable-IsValid server to_text to_text context connection _ fresh (
    stepped (timer_fired 30)
      (stepped (told readings news) (stepped (packet_received at_once observe_temp) started)))

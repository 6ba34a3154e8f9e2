-- ===== src/Samples/Packets.antt =====
-- Packets with the fields that the server reads, and route tables that match whole texts.
use coapum.Prelude.{
  ℕ, Bool, true, false, ◌≡◌, refl, Option, none, some, List, [], ◌∷◌, String, Bytes, string_eq, leb,
  ltb,
}
use coapum.HashMap
use coapum.HashMap.{HashMap}
use coapum.HashMap.Laws.{get-insert_self}
use coapum.Coap.{
  CoapLite, MessageType, confirmable, acknowledgement, RequestType, get, unknown, MessageClass,
  request, response, ResponseType, ObserveOption,
}
use coapum.Router.{RouteRecognizer}

pub record Packet : Type 0 where
  pub message_type : MessageType
  pub message_id : ℕ
  pub token : Bytes
  pub code : MessageClass
  pub payload : Bytes
  pub observe : Option ObserveOption
  pub observe_value : Option ℕ
  pub path : String
  pub options : List ℕ

abbrev pub blank : Packet
blank = record {
  message_type = confirmable;
  message_id = 0;
  token = [];
  code = request get;
  payload = [];
  observe = none;
  observe_value = none;
  path = [];
  options = [];
}

abbrev pub method_of : MessageClass → RequestType
method_of (request m) = m
method_of _ = unknown

abbrev pub is_error_response : ResponseType → Bool
is_error_response (ResponseType.other n) = leb 128 n
is_error_response _ = true

abbrev pub status_of : MessageClass → ResponseType
status_of (response s) = s
status_of _ = ResponseType.other 0

abbrev pub plain_coap : CoapLite
plain_coap = record {
  Packet = Packet;
  new_packet = blank;
  new_response = record blank {
    message_type = acknowledgement;
    code = response (ResponseType.other 69);
  };
  get_type = λ p. p.message_type;
  set_type = λ t p. record p { message_type = t };
  message_id = λ p. p.message_id;
  set_message_id = λ i p. record p { message_id = i };
  get_token = λ p. p.token;
  set_token = λ t p. record p { token = t };
  code = λ p. p.code;
  set_code = λ c p. record p { code = c };
  set_payload = λ b p. record p { payload = b };
  set_observe_value = λ v p. record p { observe_value = some v };
  add_size1 = λ b p. record p { options = 60 ∷ p.options };
  options = λ p. p.options;
  is_known_option = λ n. ltb n 61;
  to_bytes = λ p. some (p.message_id ∷ p.payload);
  get_path = λ p. p.path;
  get_method = λ p. method_of p.code;
  get_observe_flag = λ p. p.observe;
  with_path = λ s. record blank { path = s };
  is_cbor = λ p. false;
  get_status = λ p. status_of p.code;
  prepare_response = λ p. none;
  is_error = is_error_response;
  token-set_token = λ t p. refl;
  token-set_message_id = λ i p. refl;
  token-set_type = λ y p. refl;
  token-set_code = λ c p. refl;
  message_id-set_message_id = λ i p. refl;
  message_id-set_token = λ t p. refl;
  message_id-set_type = λ y p. refl;
  message_id-set_code = λ c p. refl;
  code-set_code = λ c p. refl;
  code-set_type = λ y p. refl;
  type-set_type = λ y p. refl;
  token-set_observe_value = λ v p. refl;
  message_id-set_observe_value = λ v p. refl;
}

abbrev pub exact_routes : {T : Type 0} → RouteRecognizer (HashMap String T) T
exact_routes = record {
  new = [];
  add = λ route t r. HashMap.insert route t r;
  recognize = λ path r. HashMap.get path r;
}

pub finds_added :
    {T : Type 0}
    → (route : String) (t : T) (r : HashMap String T)
    → exact_routes.recognize route (exact_routes.add route t r) ≡ some t
finds_added route t r = get-insert_self route t r

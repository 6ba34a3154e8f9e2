-- ===== src/Coap.antt =====
-- The CoAP library `coap_lite`, a parameter of the model: packets with what is read from them and
-- written to them. The record `CoapLite` has the laws of its getters and setters that the server
-- relies on. `SocketAddr` is used as a key only.
use coapum.Prelude.{ℕ, ◌≡◌, Bool, Option, List, String, Bytes}

abbrev pub SocketAddr : Type 0
SocketAddr = List ℕ

pub data MessageType : Type 0 where
  confirmable non_confirmable acknowledgement reset : MessageType

pub data RequestType : Type 0 where
  get post put delete fetch patch i_patch unknown : RequestType

pub data ResponseType : Type 0 where
  bad_request bad_option not_found method_not_allowed request_entity_too_large : ResponseType
  other : ℕ → ResponseType

pub data MessageClass : Type 0 where
  empty : MessageClass
  request : RequestType → MessageClass
  response : ResponseType → MessageClass
  reserved : ℕ → MessageClass

pub data ObserveOption : Type 0 where
  register deregister : ObserveOption

pub record CoapLite : Type 1 where
  pub Packet : Type 0
  -- `Packet::new()`, and the message of `CoapResponse::new(&Packet::new())`
  pub new_packet : Packet
  pub new_response : Packet
  pub get_type : Packet → MessageType
  pub set_type : MessageType → Packet → Packet
  pub message_id : Packet → ℕ
  pub set_message_id : ℕ → Packet → Packet
  pub get_token : Packet → Bytes
  pub set_token : Bytes → Packet → Packet
  pub code : Packet → MessageClass
  pub set_code : MessageClass → Packet → Packet
  pub set_payload : Bytes → Packet → Packet
  pub set_observe_value : ℕ → Packet → Packet
  pub add_size1 : Bytes → Packet → Packet
  -- the option numbers, in their order, and whether `CoapOption` has a name for one
  pub options : Packet → List ℕ
  pub is_known_option : ℕ → Bool
  pub to_bytes : Packet → Option Bytes
  -- what `CoapRequest` reads from its message
  pub get_path : Packet → String
  pub get_method : Packet → RequestType
  pub get_observe_flag : Packet → Option ObserveOption
  -- a default packet with a path, and whether the content format is CBOR
  pub with_path : String → Packet
  pub is_cbor : Packet → Bool
  -- `CoapResponse::get_status`, and the response that `CoapRequest::from_packet` prepares
  pub get_status : Packet → ResponseType
  pub prepare_response : Packet → Option Packet
  -- `ResponseType::is_error`
  pub is_error : ResponseType → Bool
  pub token-set_token : (t : Bytes) (p : Packet) → get_token (set_token t p) ≡ t
  pub token-set_message_id : (i : ℕ) (p : Packet) → get_token (set_message_id i p) ≡ get_token p
  pub token-set_type : (y : MessageType) (p : Packet) → get_token (set_type y p) ≡ get_token p
  pub token-set_code : (c : MessageClass) (p : Packet) → get_token (set_code c p) ≡ get_token p
  pub message_id-set_message_id : (i : ℕ) (p : Packet) → message_id (set_message_id i p) ≡ i
  pub message_id-set_token : (t : Bytes) (p : Packet) → message_id (set_token t p) ≡ message_id p
  pub message_id-set_type :
      (y : MessageType) (p : Packet) → message_id (set_type y p) ≡ message_id p
  pub message_id-set_code :
      (c : MessageClass) (p : Packet) → message_id (set_code c p) ≡ message_id p
  pub code-set_code : (c : MessageClass) (p : Packet) → code (set_code c p) ≡ c
  pub code-set_type : (y : MessageType) (p : Packet) → code (set_type y p) ≡ code p
  pub type-set_type : (y : MessageType) (p : Packet) → get_type (set_type y p) ≡ y
  pub token-set_observe_value :
      (v : ℕ) (p : Packet) → get_token (set_observe_value v p) ≡ get_token p
  pub message_id-set_observe_value :
      (v : ℕ) (p : Packet) → message_id (set_observe_value v p) ≡ message_id p

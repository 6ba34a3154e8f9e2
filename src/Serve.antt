-- ===== src/Serve.antt =====
-- src/serve.rs: the state of one connection and what it stands on. The block-wise transfer of
-- `coap_lite` and the observer backend are parameters. What a step hands to DTLS for the peer is
-- a list of datagrams; whether DTLS and the socket accept them is only logged, and not modelled.
pub mod Identity
pub mod Registry
pub mod Request
pub mod Notification
pub mod Session
mod Tests
use coapum.Prelude.{ℕ, Bool, Option, List, [], String, Bytes}
use coapum.HashMap.{HashMap}
use coapum.Reliability.{ReliabilityState}
use coapum.Coap.{CoapLite}
use coapum.Float64.{Float64}
use coapum.Router.{CoapRouter, CoapumRequest, RouteRecognizer, Methods}

pub record ObserveState : Type 0 where
  pub sequence : ℕ
  pub next_msg_id : ℕ
  -- the paths of the notifications that were sent, by message id
  pub notification_msg_ids : HashMap ℕ String
  -- the tokens of the observers, by path
  pub observer_tokens : HashMap String Bytes

unfoldable pub new : ObserveState
new = record { sequence = 0; next_msg_id = 1; notification_msg_ids = []; observer_tokens = [] }

-- What `intercept_request` returns: `Ok(true)`, `Ok(false)` or an error.
pub data Interception : Type 0 where
  handled not_handled failed : Interception

-- `coap_lite::BlockHandler`, with states `B`. Both calls change the request's message or response.
pub record BlockHandler (Packet B : Type 0) : Type 0 where
  pub intercept_request : Packet → Option Packet → B → Interception × Packet × Option Packet × B
  pub intercept_response : Packet → Packet → B → Option Packet × B

-- The trait `Observer`, as far as the server calls it; an error is a `false`.
pub record Backend (O Sender : Type 0) : Type 0 where
  pub register : String → String → Sender → O → Bool × O
  pub unregister : String → String → O → Bool × O
  pub unregister_device : String → O → Bool × O
  pub observer_count : String → O → ℕ

-- What the server stands on: the library's operations, the types of the application's state, of its
-- handlers, of route tables, of senders, and of the states of the block handler and the backend.
pub record Server : Type 1 where
  pub coap : CoapLite
  pub float : Float64
  pub Blocks : Type 0
  pub Routes : Type 0
  pub State : Type 0
  pub Store : Type 0
  pub Handler : Type 0
  pub Sender : Type 0
  pub block : BlockHandler coap.Packet Blocks
  pub backend : Backend Store Sender
  pub table : RouteRecognizer Routes (Methods Handler)
  pub call_erased : Handler → CoapumRequest (coap.Packet) → State → coap.Packet × State

-- What `connection_task` keeps.
pub record Connection (server : Server) : Type 0 where
  pub router : CoapRouter server.Routes server.State server.Store
  pub obs : ObserveState
  pub block_handler : server.Blocks
  pub reliability : ReliabilityState server.float.Num

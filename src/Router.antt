-- ===== src/Router.antt =====
-- src/router/mod.rs and src/router/wrapper/mod.rs: routes, their lookup and the calls of handlers.
-- The crate `route_recognizer`, the handlers and the observer backend are parameters. `H` is the
-- type of handlers, `R` that of route tables, `S` the application's state and `O` the backend.
pub mod Laws
pub mod StateUpdates
mod Tests
use coapum.Prelude.{
  ℕ, zero, suc, List, sym, ap, ◌∙◌, Bool, true, false, ◌≡◌, ◌↔◌, refl, Option, none, some, [], ◌∷◌,
  String, PartialEq, nat_beq, is_some, unwrap_or, arith, nat_beq_iff,
}
use coapum.HashMap
use coapum.HashMap.{HashMap}
use coapum.Coap.{
  CoapLite, SocketAddr, RequestType, get, post, put, delete, fetch, patch, i_patch, unknown,
  ResponseType, bad_request, MessageClass, response, ObserveOption,
}

-- The number that `RequestTypeWrapper` hashes.
unfoldable pub method_code : RequestType → ℕ
method_code get = 0
method_code post = 1
method_code put = 2
method_code delete = 3
method_code fetch = 4
method_code patch = 5
method_code i_patch = 6
method_code unknown = 7

-- `PartialEq for RequestTypeWrapper`
unfoldable pub method_eq : RequestType → RequestType → Bool
unfolding method_code
method_eq a b = nat_beq (method_code a) (method_code b)

-- The method of a number, which makes the numbers distinct.
from_code : List RequestType → ℕ → RequestType
from_code [] n = unknown
from_code (m ∷ ms) zero = m
from_code (m ∷ ms) (suc n) = from_code ms n

abbrev all_methods : List RequestType
all_methods = get ∷ post ∷ put ∷ delete ∷ fetch ∷ patch ∷ i_patch ∷ unknown ∷ []

from_code-method_code : (m : RequestType) → from_code all_methods (method_code m) ≡ m
unfolding from_code method_code
from_code-method_code get = refl
from_code-method_code post = refl
from_code-method_code put = refl
from_code-method_code delete = refl
from_code-method_code fetch = refl
from_code-method_code patch = refl
from_code-method_code i_patch = refl
from_code-method_code unknown = refl

pub method_eq_iff : (a b : RequestType) → (method_eq a b ≡ true) ↔ (a ≡ b)
unfolding method_eq
method_eq_iff a b = (
  λ h.
      sym (from_code-method_code a)
      ∙ ap (from_code all_methods) ((nat_beq_iff (method_code a) (method_code b)).0 h)
      ∙ from_code-method_code b,
  λ e. (nat_beq_iff (method_code a) (method_code b)).1 (ap method_code e),
)

instance abbrev pub method_key : PartialEq RequestType
method_key = record { eq = method_eq; eq_exact = method_eq_iff }

pub record RouteHandler (H : Type 0) : Type 0 where
  pub handler : H
  pub observe_handler : Option H
  pub method : RequestType
  pub confirmable_notifications : Bool

abbrev pub Methods : Type 0 → Type 0
Methods H = HashMap RequestType (RouteHandler H)

-- `route_recognizer::Router<T>`
pub record RouteRecognizer (R T : Type 0) : Type 0 where
  pub new : R
  pub add : String → T → R → R
  pub recognize : String → R → Option T

-- The state-update channel of the router is not modelled: `state` is what it holds at a call.
pub record CoapRouter (R S O : Type 0) : Type 0 where
  pub inner : R
  pub state : S
  pub db : O

pub data LookupResult (H : Type 0) : Type 0 where
  found : H → LookupResult H
  not_found : LookupResult H
  method_not_allowed : LookupResult H

abbrev pub observing : {H : Type 0} → Bool → H → H → RouteHandler H
observing is_confirmable get_handler notify_handler = record {
  handler = get_handler;
  observe_handler = some notify_handler;
  method = get;
  confirmable_notifications = is_confirmable;
}

module _ {H R S O : Type 0} (table : RouteRecognizer R (Methods H)) where
  unfoldable pub new : S → O → CoapRouter R S O
  new state db = record { inner = table.new; state = state; db = db }

  -- Whatever route matches `route` counts as the existing one.
  unfoldable pub add : String → RouteHandler H → CoapRouter R S O → CoapRouter R S O
  add route h r =
      let methods = unwrap_or (table.recognize route r.inner) [] in
      record r { inner = table.add route (HashMap.insert h.method h methods) r.inner }

  -- The handler of a path for a method, and whether the path has any.
  unfoldable pub lookup : RequestType → String → CoapRouter R S O → LookupResult H
  lookup method path r = elim (table.recognize path r.inner) [
    | none ↦ LookupResult.not_found
    | some methods ↦ elim (HashMap.get method methods) [
      | none ↦ LookupResult.method_not_allowed
      | some h ↦ found h.handler
    ]
  ]

  unfoldable pub lookup_observer_handler : String → CoapRouter R S O → Option H
  lookup_observer_handler path r = elim (table.recognize path r.inner) [
    | none ↦ none
    | some methods ↦ elim (HashMap.get get methods) [ none ↦ none | some h ↦ h.observe_handler ]
  ]

  unfoldable pub has_observe_route : String → CoapRouter R S O → Bool
  unfolding lookup_observer_handler
  has_observe_route path r = is_some (lookup_observer_handler path r)

  unfoldable pub is_confirmable_notify : String → CoapRouter R S O → Bool
  is_confirmable_notify path r = elim (table.recognize path r.inner) [
    | none ↦ false
    | some methods ↦ elim (HashMap.get get methods) [
      | none ↦ false
      | some h ↦ h.confirmable_notifications
    ]
  ]

  -- The builder's methods.
  unfoldable pub add_route : String → RequestType → H → CoapRouter R S O → CoapRouter R S O
  unfolding add
  add_route path method handler r =
      add path
        (record {
          handler = handler;
          observe_handler = none;
          method = method;
          confirmable_notifications = false;
        })
        r

  unfoldable pub route_get : String → H → CoapRouter R S O → CoapRouter R S O
  unfolding add_route
  route_get path handler r = add_route path get handler r

  unfoldable pub route_post : String → H → CoapRouter R S O → CoapRouter R S O
  unfolding add_route
  route_post path handler r = add_route path post handler r

  unfoldable pub route_put : String → H → CoapRouter R S O → CoapRouter R S O
  unfolding add_route
  route_put path handler r = add_route path put handler r

  unfoldable pub route_delete : String → H → CoapRouter R S O → CoapRouter R S O
  unfolding add_route
  route_delete path handler r = add_route path delete handler r

  unfoldable pub route_any : String → H → CoapRouter R S O → CoapRouter R S O
  unfolding add_route
  route_any path handler r = add_route path unknown handler r

  unfoldable pub observe : String → H → H → CoapRouter R S O → CoapRouter R S O
  unfolding add
  observe path get_handler notify_handler r =
      add path (observing false get_handler notify_handler) r

  unfoldable pub observe_confirmable : String → H → H → CoapRouter R S O → CoapRouter R S O
  unfolding add
  observe_confirmable path get_handler notify_handler r =
      add path (observing true get_handler notify_handler) r

-- `CoapumRequest`
pub record CoapumRequest (Packet : Type 0) : Type 0 where
  pub message : Packet
  pub code : RequestType
  pub path : String
  pub observe_flag : Option ObserveOption
  pub response : Option Packet
  pub source : Option SocketAddr
  pub identity : String

module _ (coap : CoapLite) where
  open coap use {
    Packet, new_response, message_id, set_message_id, get_token, set_token, set_code, get_path,
    get_method, get_observe_flag, with_path,
  }

  -- `From<CoapRequest>`; the identity is set by the caller.
  unfoldable pub from_coap_request : Packet → Option Packet → SocketAddr → CoapumRequest Packet
  from_coap_request message resp source = record {
    message = message;
    code = get_method message;
    path = get_path message;
    observe_flag = get_observe_flag message;
    response = resp;
    source = some source;
    identity = [];
  }

  -- `(status, &request).into_response()`
  unfoldable pub status_response : ResponseType → CoapumRequest Packet → Packet
  status_response status req =
      set_code (response status)
        (set_token (get_token req.message) (set_message_id (message_id req.message) new_response))

  module _ {H R S O : Type 0} (table : RouteRecognizer R (Methods H))
      (call_erased : H → CoapumRequest Packet → S → Packet × S) where
    answer_with :
        CoapumRequest Packet → CoapRouter R S O → LookupResult H → Packet × CoapRouter R S O
    answer_with req r (found h) =
        let (resp, state) = call_erased h req r.state in (resp, record r { state = state })
    answer_with req r LookupResult.not_found = (status_response ResponseType.not_found req, r)
    answer_with req r LookupResult.method_not_allowed =
        (status_response ResponseType.method_not_allowed req, r)

    -- `Service<CoapumRequest>::call`
    unfoldable pub call : CoapumRequest Packet → CoapRouter R S O → Packet × CoapRouter R S O
    unfolding answer_with
    call req r = answer_with req r (lookup table req.code req.path r)

    -- `Service<ObserverRequest>::call`
    unfoldable pub call_observer :
        String → Option Packet → SocketAddr → CoapRouter R S O → Packet × CoapRouter R S O
    call_observer path resp source r = elim (lookup_observer_handler table path r) [
      | none ↦ (set_code (response bad_request) new_response, r)
      | some h ↦
          let (answer, state) =
            call_erased h (from_coap_request (with_path path) resp source) r.state in
          (answer, record r { state = state })
    ]

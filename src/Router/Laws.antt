-- ===== src/Router/Laws.antt =====
-- What registering a route changes, and what an unrouted request is answered.
use coapum.Prelude.{
  ◌≡◌, refl, ap, ◌∙◌, ◌⊎◌, false, Option, none, some, [], String, ◌==◌, if◌then◌else◌, arith,
  unwrap_or, Option-cases, inl, inr, is_some,
}
use coapum.HashMap
use coapum.HashMap.{HashMap}
use coapum.HashMap.Laws.{get-insert}
use coapum.Coap.{SocketAddr, CoapLite, RequestType, get, unknown, ResponseType, response}
use coapum.Router.{
  method_key, RouteHandler, Methods, RouteRecognizer, CoapRouter, LookupResult, found,
  CoapumRequest, add, lookup, lookup_observer_handler, has_observe_route, is_confirmable_notify,
  route_any, status_response, call, answer_with, call_observer,
}

module _ {H : Type 0} where
  -- A path that is known, whatever the method.
  abbrev pub known : LookupResult H → LookupResult H
  known (found h) = found h
  known LookupResult.not_found = LookupResult.method_not_allowed
  known LookupResult.method_not_allowed = LookupResult.method_not_allowed

  get-nil : (method : RequestType) → HashMap.get {V = RouteHandler H} method [] ≡ none
  unfolding HashMap.get
  get-nil method = refl

module _ {H R S O : Type 0} (table : RouteRecognizer R (Methods H)) where
  -- A path leads to the route that is added, whatever methods it has: no other pattern of the table
  -- goes before it there.
  abbrev pub LeadsTo : String → String → CoapRouter R S O → Type 0
  LeadsTo route path r = (m : Methods H) → table.recognize path (table.add route m r.inner) ≡ some m

  -- A route is found at its own text after it was added.
  abbrev pub FindsAdded : String → CoapRouter R S O → Type 0
  FindsAdded route r = LeadsTo route route r

  module _ (route : String) (h : RouteHandler H) (r : CoapRouter R S O) where
    recognized-add :
        (path : String)
        → LeadsTo route path r
        → table.recognize path (add table route h r).inner
          ≡ some (HashMap.insert h.method h (unwrap_or (table.recognize route r.inner) []))
    unfolding add
    recognized-add path finds = finds _

    -- After a route is added, a path that the recognizer then leads to that route, whatever its
    -- methods, gives the new handler for the new method, and for every other method what the text of
    -- the route gave before, be it through another pattern that matches that text: what was not found
    -- is now a method that is not allowed. Of a path at which another pattern goes before the new
    -- route nothing is said; the text of the route may be such a path.
    pub lookup-add :
        (method : RequestType) (path : String)
        → LeadsTo route path r
        → lookup table method path (add table route h r)
          ≡ (if h.method == method then found h.handler else known (lookup table method route r))
    unfolding lookup
    lookup-add method path finds = elim (Option-cases (table.recognize route r.inner)) [
      | inl e ↦ ground (
        arith,
        e,
        recognized-add path finds,
        get-insert h.method method h [],
        get-nil {H = H} method,
      )
      | inr (m, e) ↦ elim (Option-cases (HashMap.get method m)) [
        | inl f ↦ ground (arith, e, f, recognized-add path finds, get-insert h.method method h m)
        | inr (x, f) ↦
            ground (arith, e, f, recognized-add path finds, get-insert h.method method h m)
      ]
    ]

    -- A path accepts observers after a route was added exactly if the route is a GET route with an
    -- observe handler, or is none and the path accepted observers before; likewise its
    -- notifications are confirmable.
    pub observe_routes-add :
        FindsAdded route r
        → (has_observe_route table route (add table route h r) ≡ (
            if h.method == get then is_some h.observe_handler else has_observe_route table route r))
          × (is_confirmable_notify table route (add table route h r) ≡ (
              if h.method == get
              then h.confirmable_notifications
              else is_confirmable_notify table route r))
    unfolding has_observe_route is_confirmable_notify
    observe_routes-add finds = elim (Option-cases (table.recognize route r.inner)) [
      | inl e ↦
          let at_get = get-insert h.method get h [] in
          (
            ground (arith, e, recognized-add route finds, at_get, get-nil {H = H} get),
            ground (arith, e, recognized-add route finds, at_get, get-nil {H = H} get),
          )
      | inr (m, e) ↦
          let at_get = get-insert h.method get h m in
          (
            ground (arith, e, recognized-add route finds, at_get),
            ground (arith, e, recognized-add route finds, at_get),
          )
    ]

  -- A route that is added by `any` at an unknown path serves only requests with an unknown method:
  -- a request with any other is told that its method is not allowed; if the route is found at its own
  -- text after it was added.
  pub lookup-route_any :
      (method : RequestType) (path : String) (handler : H) (r : CoapRouter R S O)
      → FindsAdded path r
      → table.recognize path r.inner ≡ none
      → lookup table method path (route_any table path handler r)
        ≡ (if unknown == method then found handler else LookupResult.method_not_allowed)
  unfolding route_any lookup
  lookup-route_any method path handler r finds new_path =
      let h : RouteHandler H = record {
        handler = handler;
        observe_handler = none;
        method = unknown;
        confirmable_notifications = false;
      } in
      let before : lookup table method path r ≡ LookupResult.not_found =
        rw (lookup, new_path) refl in
      lookup-add path h r method path finds
      ∙ ap (λ l. if unknown == method then found handler else known l) before

module _ (coap : CoapLite) where
  open coap use {
    Packet, code, message_id, get_token, token-set_code, token-set_token, message_id-set_code,
    message_id-set_token, message_id-set_message_id, code-set_code,
  }

  -- What a request without a handler is answered: the status, the request's message id and token.
  pub record IsRefusal (status : ResponseType) (req : CoapumRequest Packet) (answer : Packet)
      : Type 0 where
    pub code_is : code answer ≡ response status
    pub id_is : message_id answer ≡ message_id req.message
    pub token_is : get_token answer ≡ get_token req.message

  status_response-IsRefusal :
      (status : ResponseType) (req : CoapumRequest Packet)
      → IsRefusal status req (status_response coap status req)
  unfolding status_response
  status_response-IsRefusal status req = record {
    code_is = code-set_code _ _;
    id_is = message_id-set_code _ _ ∙ message_id-set_token _ _ ∙ message_id-set_message_id _ _;
    token_is = token-set_code _ _ ∙ token-set_token _ _;
  }

  module _ {H R S O : Type 0} (table : RouteRecognizer R (Methods H))
      (call_erased : H → CoapumRequest Packet → S → Packet × S) where
    -- A request whose path has no route is answered 4.04, and one whose path has no handler for the
    -- method 4.05, each with the request's message id and token; the router stays as it is.
    pub call_unrouted :
        (req : CoapumRequest Packet) (r : CoapRouter R S O) (status : ResponseType)
        → (lookup table req.code req.path r ≡ LookupResult.not_found)
            × (status ≡ ResponseType.not_found)
          ⊎ (lookup table req.code req.path r ≡ LookupResult.method_not_allowed)
            × (status ≡ ResponseType.method_not_allowed)
        → IsRefusal status req (call coap table call_erased req r).0
          × ((call coap table call_erased req r).1 ≡ r)
    unfolding call
    call_unrouted req r status (inl (e, s)) =
        rw (e, s) (status_response-IsRefusal ResponseType.not_found req, refl)
    call_unrouted req r status (inr (e, s)) =
        rw (e, s) (status_response-IsRefusal ResponseType.method_not_allowed req, refl)

    -- No handler changes the backend of its router.
    pub call-db :
        (req : CoapumRequest Packet) (r : CoapRouter R S O)
        → (call coap table call_erased req r).1.db ≡ r.db
    unfolding call answer_with
    call-db req r = answered (lookup table req.code req.path r)
      where
        answered :
            (result : LookupResult H)
            → (answer_with coap table call_erased req r result).1.db ≡ r.db
        answered (found h) = refl
        answered LookupResult.not_found = refl
        answered LookupResult.method_not_allowed = refl

    pub call_observer-db :
        (path : String) (resp : Option Packet) (source : SocketAddr) (r : CoapRouter R S O)
        → (call_observer coap table call_erased path resp source r).1.db ≡ r.db
    unfolding call_observer
    call_observer-db path resp source r =
        elim (Option-cases (lookup_observer_handler table path r)) [
          | inl e ↦ rw (call_observer, e) refl
          | inr (h, e) ↦ rw (call_observer, e) refl
        ]

-- ===== src/Router/Tests.antt =====
-- Runs of src/router/mod.rs, and its theorems at concrete inputs.
use coapum.Prelude.{
  ℕ, suc, ◌≡◌, refl, true, none, [], ◌∷◌, String, codes, string_eq, if◌then◌else◌, ◌==◌,
}
use coapum.HashMap
use coapum.HashMap.{HashMap}
use coapum.Coap.{get, put, delete, unknown, request}
use coapum.Samples.Packets.{Packet, blank, plain_coap, exact_routes, finds_added}
use coapum.Router.{
  Methods, CoapRouter, LookupResult, found, CoapumRequest, method_key, method_eq, add, lookup,
  route_any, observing, call, from_coap_request,
}
use coapum.Router.Laws.{known, lookup-add, lookup-route_any}

abbrev Table : Type 0
Table = HashMap String (Methods ℕ)

abbrev temp : String
temp = codes "/temp"

abbrev blank_router : CoapRouter Table ℕ ℕ
blank_router = record { inner = []; state = 0; db = 0 }

-- Handlers are numbers, which the state adds up.
abbrev run : ℕ → CoapumRequest Packet → ℕ → Packet × ℕ
run h req s = (record blank { payload = h ∷ [] }, suc s)

abbrev ask_delete : CoapumRequest Packet
ask_delete =
    from_coap_request plain_coap
      (record blank { code = request delete; path = temp; message_id = 5 }) none []

abbrev get_only : CoapRouter Table ℕ ℕ
get_only = record { inner = (temp, (get, observing true 3 4) ∷ []) ∷ []; state = 0; db = 0 }

delete_not_allowed : lookup exact_routes delete temp get_only ≡ LookupResult.method_not_allowed
unfolding lookup HashMap.get method_eq
delete_not_allowed = refl

routed : (call plain_coap exact_routes run (record ask_delete { code = get }) get_only).1.state ≡ 1
unfolding call lookup from_coap_request HashMap.get method_eq
routed = refl

lookup-add_example :
    lookup exact_routes put temp (add exact_routes temp (observing true 3 4) get_only)
    ≡ (if get == put then found 3 else known (lookup exact_routes put temp get_only))
lookup-add_example =
    lookup-add exact_routes temp (observing true 3 4) get_only put temp
      (λ m. finds_added temp m get_only.inner)

no_route : HashMap.get {K = String} {V = Methods ℕ} temp [] ≡ none
unfolding HashMap.get
no_route = refl

lookup-route_any_example :
    lookup exact_routes get temp (route_any exact_routes temp 9 blank_router)
    ≡ (if unknown == get then found 9 else LookupResult.method_not_allowed)
lookup-route_any_example =
    lookup-route_any exact_routes get temp 9 blank_router (λ m. finds_added temp m []) no_route

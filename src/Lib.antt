-- ===== src/Lib.antt =====
-- A verification library for coapum, a CoAP server over DTLS with device state and observers.
--
-- A datagram that DTLS has decrypted is parsed and given to `handle_request`, which looks it up among
-- the answered ones (Reliability), lets the block-wise transfer of `coap_lite` see it, plans an
-- observation (Observer), routes it (Router), and sends and records the response. A write to the
-- observer backend tells the observers of the device, and `handle_notification` sends what they are
-- told. The credentials (Credential) decide which identities get a key in the handshake, and the
-- table of connections which of them may connect.
--
-- Parts, and the files that model them (source paths are from the repository's root):
--   Reliability    src/reliability.rs: per-connection retransmission and deduplication; each
--                  function of `ReliabilityState` is a function of the same name
--   Observer       src/observer/mod.rs: path validation, JSON merge, the table of channels;
--                  Observer/Memory is src/observer/memory.rs, Observer/Sled src/observer/sled.rs,
--                  Observer/Redb src/observer/redb.rs
--   Credential     src/credential/mod.rs: the interface of a store and its entries; Memory is
--                  src/credential/memory.rs, Resolver src/credential/resolver.rs, and Commands the
--                  commands of src/router/mod.rs that `process_client_command` of src/serve.rs runs
--   Router         src/router/mod.rs, src/router/wrapper/mod.rs: the route table, its builder and
--                  the calls of handlers; `route_get`, `route_any` and so on are the builder's
--                  `get` and `any`; StateUpdates has the handles that update the state
--   Serve          src/serve.rs: Identity is `extract_identity`, Registry `manage_connection` and
--                  the end of a connection's task, Request `handle_request`, whose stages are
--                  functions of their own, Notification `handle_notification`, and
--                  Session the events of the loop of `connection_task`
--   Config         src/config/mod.rs: the setters and the lifetime of an exchange; Settings has
--                  what holds after any calls of the setters
--   Extract        src/extract/path.rs and src/extract/payload.rs: the parameters in the path
--                  of a request, and the parsing of its payload
--   Senml          the crate coapum-senml: Record, Pack, Normalize, Builder and Validation are its
--                  files of these names, Base64 the encoding of binary values, Cbor the codec of
--                  coapum-senml/src/pack.rs with the functions of cbor.rs, Json the calls of
--                  serde_json in pack.rs; `set_base_name` and so on are the builder's `base_name`,
--                  and `build_series` and `build_config` the `build` of the two other builders
--   Coap           the crate `coap_lite`, with the laws of its getters and setters
--   Json, Str, HashMap, Utf8, Float64, Prelude: the libraries that the program builds on
--   Samples        values of the parameters, for the examples
--
-- Numbers are natural numbers, and wrap where the source wraps; ℤ is there for the labels and the
-- versions of SenML. A `Duration` and an `Instant` are nanoseconds, and their sums do not overflow
-- in the model; a reading of the clock, and a random draw, is an argument. A lock is held by one
-- call at a time, so a call under it is one step. A `HashMap` is a list of entries, and no theorem
-- depends on their order but where it says so. No definition needs fuel: every loop of the modelled
-- code runs over a list, or is a sequence of turns that a theorem quantifies over.
--
-- Parameters are also the databases of the persistent observers and the codec of their texts, the
-- channel of the state updates, the `f64` of SenML (`Double`), the values, the writer and the
-- reader of ciborium, and the derived printing and parsing of packs by serde_json; a theorem names
-- what it asks of them. The text of an error is left out where
-- the code does not look at it.
--
-- Not modelled: sockets, DTLS, logging and the capacity of channels; the handshake's events, the
-- timeouts that end a connection and the dispatch of datagrams to connections; the extractors of
-- shared state, the handler traits, the handle that sends client commands, the opening of databases,
-- the broadcast subscriptions of src/observer/subscriber.rs and the client; of SenML the JSON
-- helpers and the XML codec, and the check of a time against the clock.
pub mod Coap
pub mod Config
pub mod Credential
pub mod Extract
pub mod Float64
pub mod HashMap
pub mod Json
pub mod Observer
pub mod Prelude
pub mod Reliability
pub mod Router
pub mod Samples
pub mod Senml
pub mod Serve
pub mod Str
pub mod Utf8

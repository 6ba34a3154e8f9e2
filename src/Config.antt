-- ===== src/Config.antt =====
-- `Config` of src/config/mod.rs and its setters. A `Duration` is nanoseconds; the DTLS configuration
-- and the signal of the shutdown are values of types of their own.
pub mod Settings
mod Tests
use coapum.Prelude.{
  ℕ, ◌+◌, ◌-◌, ◌*◌, ◌^◌, Bool, true, false, not, ◌&&◌, Option, none, some, String, Bytes, ltb, leb,
  nat_beq, is_some, Result, ok, err, if◌then◌else◌,
}
use coapum.HashMap.{HashMap}
use coapum.Float64.{Float64}

pub record Config (D W F : Type 0) : Type 0 where
  pub dimpl_cfg : Option D
  pub psk_identity_hint : Option Bytes
  pub timeout : ℕ
  pub buffer_size : ℕ
  pub initial_clients : Option (HashMap String Bytes)
  pub client_command_buffer : ℕ
  pub max_message_size : ℕ
  pub block_cache_expiry : ℕ
  pub max_observers_per_device : ℕ
  pub max_connections : ℕ
  pub notification_timeout_ms : ℕ
  pub min_reconnect_interval : ℕ
  pub max_reconnect_attempts : ℕ
  pub max_session_lifetime : Option ℕ
  pub max_latency : ℕ
  pub ack_timeout : ℕ
  pub ack_random_factor : F
  pub max_retransmit : ℕ
  pub shutdown : Option W

pub data ConfigError : Type 0 where
  -- the size, and the least and the greatest that are allowed
  invalid_buffer_size : ℕ → ℕ → ℕ → ConfigError
  invalid_timeout : ℕ → ConfigError

abbrev pub min_buffer_size : ℕ
min_buffer_size = 512

abbrev pub max_buffer_size : ℕ
max_buffer_size = 65536

abbrev pub default_buffer_size : ℕ
default_buffer_size = 8192

abbrev pub second : ℕ
second = 1_000_000_000

module _ {D W F : Type 0} where
  -- The error of a call that takes `&mut self`, and the configuration after it.
  unfoldable pub set_buffer_size : ℕ → Config D W F → Result ConfigError (Unit {0}) × Config D W F
  set_buffer_size size c =
      if not (leb min_buffer_size size && leb size max_buffer_size)
      then (err (invalid_buffer_size size min_buffer_size max_buffer_size), c)
      else (ok tt, record c { buffer_size = size })

  unfoldable pub set_timeout : ℕ → Config D W F → Result ConfigError (Unit {0}) × Config D W F
  set_timeout timeout c =
      if nat_beq timeout 0
      then (err (invalid_timeout timeout), c)
      else (ok tt, record c { timeout = timeout })

  abbrev pub with_client_management : HashMap String Bytes → Config D W F → Config D W F
  with_client_management clients c = record c { initial_clients = some clients }

  abbrev pub set_client_command_buffer : ℕ → Config D W F → Config D W F
  set_client_command_buffer size c = record c { client_command_buffer = size }

  abbrev pub has_client_management : Config D W F → Bool
  has_client_management c = is_some c.initial_clients

  abbrev pub set_max_message_size : ℕ → Config D W F → Config D W F
  set_max_message_size size c = record c { max_message_size = size }

  abbrev pub set_block_cache_expiry : ℕ → Config D W F → Config D W F
  set_block_cache_expiry duration c = record c { block_cache_expiry = duration }

  abbrev pub set_max_observers_per_device : ℕ → Config D W F → Config D W F
  set_max_observers_per_device n c = record c { max_observers_per_device = n }

  abbrev pub set_max_connections : ℕ → Config D W F → Config D W F
  set_max_connections n c = record c { max_connections = n }

  abbrev pub set_notification_timeout_ms : ℕ → Config D W F → Config D W F
  set_notification_timeout_ms timeout_ms c = record c { notification_timeout_ms = timeout_ms }

  abbrev pub set_min_reconnect_interval : ℕ → Config D W F → Config D W F
  set_min_reconnect_interval interval c = record c { min_reconnect_interval = interval }

  abbrev pub set_max_reconnect_attempts : ℕ → Config D W F → Config D W F
  set_max_reconnect_attempts n c = record c { max_reconnect_attempts = n }

  abbrev pub set_max_session_lifetime : ℕ → Config D W F → Config D W F
  set_max_session_lifetime lifetime c = record c { max_session_lifetime = some lifetime }

  abbrev pub set_shutdown : W → Config D W F → Config D W F
  set_shutdown rx c = record c { shutdown = some rx }

  abbrev pub set_ack_timeout : ℕ → Config D W F → Config D W F
  set_ack_timeout timeout c = record c { ack_timeout = timeout }

  abbrev pub set_max_retransmit : ℕ → Config D W F → Config D W F
  set_max_retransmit n c = record c { max_retransmit = n }

  abbrev pub set_max_latency : ℕ → Config D W F → Config D W F
  set_max_latency latency c = record c { max_latency = latency }

-- `1u64 << n`, which panics from 64 on where overflow is checked.
abbrev pub shift_one : ℕ → Option ℕ
shift_one n = if ltb n 64 then some (2 ^ n) else none

module _ {D W : Type 0} (float : Float64) where
  open float use {Num}

  abbrev pub set_ack_random_factor : Num → Config D W Num → Config D W Num
  set_ack_random_factor factor c = record c { ack_random_factor = float.max factor float.one }

  abbrev pub lifetime : Config D W Num → ℕ → ℕ
  lifetime c power =
      float.mul_f64 c.ack_timeout (float.mul (float.of_u64 (power - 1)) c.ack_random_factor)
      + 2 * c.max_latency
      + c.ack_timeout

  unfoldable pub exchange_lifetime : Config D W Num → Option ℕ
  exchange_lifetime c = elim (shift_one c.max_retransmit) [
    | none ↦ none
    | some power ↦ some (lifetime c power)
  ]

  -- `Config::default()`, where the argument is 1.5.
  abbrev pub default_config : Num → Config D W Num
  default_config three_halves = record {
    dimpl_cfg = none;
    psk_identity_hint = none;
    timeout = 60;
    buffer_size = default_buffer_size;
    initial_clients = none;
    client_command_buffer = 1000;
    max_message_size = 1152;
    block_cache_expiry = 120 * second;
    max_observers_per_device = 100;
    max_connections = 1000;
    notification_timeout_ms = 1000;
    min_reconnect_interval = 5 * second;
    max_reconnect_attempts = 10;
    max_session_lifetime = none;
    max_latency = 100 * second;
    ack_timeout = 2 * second;
    ack_random_factor = three_halves;
    max_retransmit = 4;
    shutdown = none;
  }

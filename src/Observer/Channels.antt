-- ===== src/Observer/Channels.antt =====
-- `ObserverChannels` of src/observer/mod.rs. `S` is the type of `Arc<Sender<ObserverValue>>`; the
-- lock around the table is held by one call at a time, so a call is one step on the table.
pub mod Registry
pub mod Notify
use coapum.Prelude.{
  ℕ, Bool, true, false, Option, none, some, List, [], ◌∷◌, length, is_empty, if◌then◌else◌,
  unwrap_or, String, string_eq, PartialEq,
}
use coapum.HashMap
use coapum.HashMap.{HashMap}
use coapum.Json.{Value, null, option_eq}
use coapum.Str.{slash, starts_with}
use coapum.Observer.Pointer.{JsonPointer}

pub record ObserverValue (N : Type 0) : Type 0 where
  pub value : Value N
  pub path : String

abbrev pub PathChannels : Type 0 → Type 0
PathChannels S = HashMap String S

abbrev pub DeviceChannels : Type 0 → Type 0
DeviceChannels S = HashMap String (PathChannels S)

pub record ObserverChannels (S : Type 0) : Type 0 where
  pub channels : DeviceChannels S
  pub notification_timeout : ℕ

-- One second, in nanoseconds.
abbrev pub default_notification_timeout : ℕ
default_notification_timeout = 1_000_000_000

module _ {S : Type 0} where
  unfoldable pub with_timeout : ℕ → ObserverChannels S
  with_timeout timeout = record { channels = []; notification_timeout = timeout }

  unfoldable pub new : ObserverChannels S
  unfolding with_timeout
  new = with_timeout default_notification_timeout

  unfoldable pub register : String → String → S → ObserverChannels S → ObserverChannels S
  register device_id path sender c =
      let device_channels = unwrap_or (HashMap.get device_id c.channels) [] in
      record c {
        channels = HashMap.insert device_id (HashMap.insert path sender device_channels) c.channels;
      }

  -- What `unregister` leaves of the table.
  without : String → String → DeviceChannels S → DeviceChannels S
  without device_id path channels = elim (HashMap.get device_id channels) [
    | none ↦ channels
    | some device_channels ↦
        let left = HashMap.remove path device_channels in
        if is_empty left
        then HashMap.remove device_id channels
        else HashMap.insert device_id left channels
  ]

  unfoldable pub unregister : String → String → ObserverChannels S → Bool × ObserverChannels S
  unfolding without
  unregister device_id path c =
      let channels = without device_id path c.channels in
      (is_empty channels, record c { channels = channels })

  unfoldable pub unregister_all : ObserverChannels S → ObserverChannels S
  unregister_all c = record c { channels = [] }

  unfoldable pub unregister_device : String → ObserverChannels S → Bool × ObserverChannels S
  unregister_device device_id c =
      let channels = HashMap.remove device_id c.channels in
      (is_empty channels, record c { channels = channels })

  unfoldable pub has_no_observers : ObserverChannels S → Bool
  has_no_observers c = is_empty c.channels

  unfoldable pub device_observer_count : String → ObserverChannels S → ℕ
  device_observer_count device_id c = elim (HashMap.get device_id c.channels) [
    | none ↦ 0
    | some device_channels ↦ length device_channels
  ]

unfoldable pub normalize_json_pointer : String → String
unfolding starts_with
normalize_json_pointer path =
    if starts_with (slash ∷ []) path
    then path
    else if is_empty path
    then slash ∷ []
    else slash ∷ path

module _ {N S : Type 0} ⦃e : PartialEq N⦄ (json : JsonPointer N) where
  open json use {pointer}

  -- The loop of `notify` over the channels of one device.
  notify_each : Value N → Value N → PathChannels S → List (S × ObserverValue N)
  notify_each current new_value [] = []
  notify_each current new_value ((obs_path, sender) ∷ rest) =
      let json_pointer = normalize_json_pointer obs_path in
      let incoming = pointer json_pointer new_value in
      let later = notify_each current new_value rest in
      if option_eq (pointer json_pointer current) incoming
      then later
      else (sender, record { value = unwrap_or incoming null; path = obs_path }) ∷ later

  -- What `notify` offers to each channel. A send that fails or that times out is logged only.
  unfoldable pub notify :
      String → Value N → Value N → ObserverChannels S → List (S × ObserverValue N)
  unfolding notify_each normalize_json_pointer option_eq
  notify device_id current new_value c = elim (HashMap.get device_id c.channels) [
    | none ↦ []
    | some device_channels ↦ notify_each current new_value device_channels
  ]

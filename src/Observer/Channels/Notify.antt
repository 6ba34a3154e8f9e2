-- ===== src/Observer/Channels/Notify.antt =====
-- Which observers are told of a change, and what they are told.
use coapum.Prelude.{
  ◌≡◌, ◌≢◌, ◌↔◌, ◌⊎◌, refl, Option, none, some, List, [], ◌∷◌, if◌then◌else◌, unwrap_or, String,
  string_eq, ◌==◌, PartialEq, list_beq_iff, filter, arith, Bool-cases, inl, inr, Option-cases,
}
use coapum.HashMap
use coapum.HashMap.{HashMap, HasDistinctKeys}
use coapum.Json.{Value, null, option_eq}
use coapum.Json.Laws.{option_eq_iff}
use coapum.Observer.Pointer.{JsonPointer}
use coapum.Observer.Channels.{
  ObserverValue, ObserverChannels, PathChannels, notify, notify_each, normalize_json_pointer,
}
use coapum.Observer.Channels.Registry.{registered, IsValid, device-HasDistinctKeys}

module _ {N S : Type 0} where
  -- The notifications among these that are for a path.
  abbrev pub sent_for : String → List (S × ObserverValue N) → List (S × ObserverValue N)
  sent_for p = filter (λ n. n.1.path == p)

module _ {N S : Type 0} ⦃e : PartialEq N⦄ (json : JsonPointer N) where
  open json use {pointer}

  -- The specification for one path: nothing if no channel is registered or the value did not
  -- change, and otherwise the new value, or null where there is none any more.
  abbrev pub due : String → Value N → Value N → Option S → List (S × ObserverValue N)
  due p current new_value none = []
  due p current new_value (some sender) =
      if option_eq (pointer (normalize_json_pointer p) current)
        (pointer (normalize_json_pointer p) new_value)
      then []
      else ((
        sender,
        record { value = unwrap_or (pointer (normalize_json_pointer p) new_value) null; path = p },
      )
          ∷ [])

  module _ (p : String) (current new_value : Value N) where
    notify_each-absent :
        (m : PathChannels S)
        → HashMap.get p m ≡ none
        → sent_for p (notify_each json current new_value m) ≡ []
    unfolding notify_each HashMap.get
    notify_each-absent [] h = refl
    notify_each-absent ((q, sender) ∷ m) h = ground (arith, notify_each-absent m, list_beq_iff q p)

    notify_each-due :
        (m : PathChannels S)
        → HasDistinctKeys m
        → sent_for p (notify_each json current new_value m)
          ≡ due p current new_value (HashMap.get p m)
    unfolding notify_each HashMap.get
    notify_each-due [] d = refl
    notify_each-due ((q, sender) ∷ m) (fresh, d) = elim (Bool-cases (q == p)) [
      | inl same ↦
          let eq : q ≡ p = (list_beq_iff q p).0 same in
          let absent = notify_each-absent m (rw eq at fresh) in
          ground (arith, eq, absent, list_beq_iff p p)
      | inr other ↦ ground (arith, notify_each-due m d, other)
    ]

    due_nil_iff :
        (o : Option S)
        → (due p current new_value o ≡ []) ↔ (
            (o ≡ none)
            ⊎ (pointer (normalize_json_pointer p) current
                ≡ pointer (normalize_json_pointer p) new_value))
    due_nil_iff none = ground arith
    due_nil_iff (some sender) =
        let now = pointer (normalize_json_pointer p) current in
        let next = pointer (normalize_json_pointer p) new_value in
        ground (arith, option_eq_iff now next)

    notify-due :
        (device_id : String) (c : ObserverChannels S)
        → IsValid c
        → sent_for p (notify json device_id current new_value c)
          ≡ due p current new_value (registered device_id p c)
    unfolding notify registered
    notify-due device_id c v = elim (Option-cases (HashMap.get device_id c.channels)) [
      | inl none_there ↦ ground (arith, none_there)
      | inr (dc, there) ↦
          let distinct = device-HasDistinctKeys device_id c v in
          let here : HasDistinctKeys dc = rw there at distinct in
          ground (arith, there, notify_each-due dc here)
    ]

    -- In a valid table the observer of a path is told nothing exactly when none is registered for
    -- the device and path, or when the path's JSON pointer leads to the same in both values.
    pub notify-eq-nil_iff :
        (device_id : String) (c : ObserverChannels S)
        → IsValid c
        → (sent_for p (notify json device_id current new_value c) ≡ []) ↔ (
            (registered device_id p c ≡ none)
            ⊎ (pointer (normalize_json_pointer p) current
                ≡ pointer (normalize_json_pointer p) new_value))
    notify-eq-nil_iff device_id c v =
        rw (notify-due device_id c v) (due_nil_iff (registered device_id p c))

    -- In a valid table the observer of a changed path is told once, of the value that the path's
    -- JSON pointer leads to after the change, or of null where it leads nowhere.
    pub notify_changed :
        (device_id : String) (sender : S) (c : ObserverChannels S)
        → IsValid c
        → registered device_id p c ≡ some sender
        → pointer (normalize_json_pointer p) current ≢ pointer (normalize_json_pointer p) new_value
        → sent_for p (notify json device_id current new_value c)
          ≡ (
            sender,
            record {
              value = unwrap_or (pointer (normalize_json_pointer p) new_value) null;
              path = p;
            },
          )
            ∷ []
    notify_changed device_id sender c v r changed =
        let now = pointer (normalize_json_pointer p) current in
        let next = pointer (normalize_json_pointer p) new_value in
        rw (notify-due device_id c v, r) (ground (arith, option_eq_iff now next))

-- ===== src/Observer/Channels/Registry.antt =====
-- The table of observer channels, against the registrations that it stands for.
use mathlib.Core.Bool.{false≢true}
use mathlib.Core.Path.{subst}
use coapum.Prelude.{
  sym, suc, ◌≡◌, ◌↔◌, refl, ap, true, false, Option, none, some, [], ◌∷◌, is_empty, is_some,
  if◌then◌else◌, unwrap_or, String, string_eq, ◌==◌, ◌&&◌, list_beq_iff, All, arith, Option-cases,
  Bool-cases, inl, inr,
}
use coapum.HashMap
use coapum.HashMap.{HashMap, HasDistinctKeys}
use coapum.HashMap.Laws.{get-insert, get-remove, insert-HasDistinctKeys, remove-HasDistinctKeys}
use coapum.HashMap.Entries.{insert-All, remove-All, All-get}
use coapum.HashMap.Size.{length-insert}
use coapum.Observer.Channels.{
  ObserverChannels, PathChannels, DeviceChannels, register, unregister, unregister_all,
  unregister_device, has_no_observers, device_observer_count, without,
}

module _ {S : Type 0} where
  -- The channel registered for a device and a path.
  unfoldable pub registered : String → String → ObserverChannels S → Option S
  registered device_id path c = elim (HashMap.get device_id c.channels) [
    | none ↦ none
    | some device_channels ↦ HashMap.get path device_channels
  ]

pub data RegistryCall (S : Type 0) : Type 0 where
  registers : String → String → S → RegistryCall S
  unregisters : String → String → RegistryCall S
  unregisters_all : RegistryCall S
  unregisters_device : String → RegistryCall S

module _ {S : Type 0} where
  unfoldable pub apply : RegistryCall S → ObserverChannels S → ObserverChannels S
  unfolding register unregister unregister_all unregister_device
  apply (registers d p sender) c = register d p sender c
  apply (unregisters d p) c = (unregister d p c).1
  apply unregisters_all c = unregister_all c
  apply (unregisters_device d) c = (unregister_device d c).1

  -- The specification: what a call makes of the registration of a device and a path.
  abbrev pub expected : RegistryCall S → String → String → Option S → Option S
  expected (registers d p sender) d' p' old = if d == d' && p == p' then some sender else old
  expected (unregisters d p) d' p' old = if d == d' && p == p' then none else old
  expected unregisters_all d' p' old = none
  expected (unregisters_device d) d' p' old = if d == d' then none else old

  get-unwrap_or :
      (p : String) (o : Option (PathChannels S))
      → HashMap.get p (unwrap_or o []) ≡ elim o [ none ↦ none | some dc ↦ HashMap.get p dc ]
  unfolding HashMap.get
  get-unwrap_or p none = refl
  get-unwrap_or p (some dc) = refl

  empty_of_is_empty : (p : String) (m : PathChannels S) → is_empty m ≡ true → HashMap.get p m ≡ none
  unfolding HashMap.get
  empty_of_is_empty p [] h = refl
  empty_of_is_empty p (x ∷ m) h = cc

  -- Every call changes the registrations as it says, and no other registration.
  pub apply-refines :
      (call : RegistryCall S) (d' p' : String) (c : ObserverChannels S)
      → registered d' p' (apply call c) ≡ expected call d' p' (registered d' p' c)
  unfolding registered apply
  apply-refines (registers d p sender) d' p' c =
      let dc = unwrap_or (HashMap.get d c.channels) [] in
      ground (
        arith,
        list_beq_iff d d',
        list_beq_iff p p',
        get-insert d d' (HashMap.insert p sender dc) c.channels,
        get-insert p p' sender dc,
        get-unwrap_or p' (HashMap.get d c.channels),
      )
  apply-refines (unregisters d p) d' p' c = elim (Option-cases (HashMap.get d c.channels)) [
    | inl e ↦ ground (arith, e, list_beq_iff d d', list_beq_iff p p')
    | inr (dc, e) ↦
        let left = HashMap.remove p dc in
        ground (
          arith,
          e,
          list_beq_iff d d',
          list_beq_iff p p',
          get-remove d d' c.channels,
          get-insert d d' left c.channels,
          get-remove p p' dc,
          empty_of_is_empty p' left,
        )
  ]
  apply-refines unregisters_all d' p' c = unfold HashMap.get in refl
  apply-refines (unregisters_device d) d' p' c = ground (arith, get-remove d d' c.channels)

  -- No device is kept without an observer, and no device or path is kept twice.
  abbrev IsPathTable : String × PathChannels S → Type 0
  IsPathTable x = (is_empty x.1 ≡ false) × HasDistinctKeys x.1

  pub record IsValid (c : ObserverChannels S) : Type 0 where
    pub distinct : HasDistinctKeys c.channels
    pub tables : All IsPathTable c.channels

  insert-nonempty :
      (p : String) (sender : S) (m : PathChannels S) → is_empty (HashMap.insert p sender m) ≡ false
  unfolding HashMap.insert
  insert-nonempty p sender [] = refl
  insert-nonempty p sender (x ∷ m) = ground arith

  pub device-HasDistinctKeys :
      (d : String) (c : ObserverChannels S)
      → IsValid c
      → HasDistinctKeys (unwrap_or (HashMap.get d c.channels) [])
  device-HasDistinctKeys d c v = elim (Option-cases (HashMap.get d c.channels)) [
    | inl e ↦ rw e tt
    | inr (dc, e) ↦ rw e (All-get IsPathTable d dc c.channels v.tables e).1
  ]

  -- Every call keeps the table valid: devices and paths are distinct, and no device is empty.
  pub apply-IsValid :
      (call : RegistryCall S) (c : ObserverChannels S) → IsValid c → IsValid (apply call c)
  unfolding apply
  apply-IsValid (registers d p sender) c v =
      let dc = unwrap_or (HashMap.get d c.channels) [] in
      let table = HashMap.insert p sender dc in
      record {
        distinct = insert-HasDistinctKeys d table c.channels v.distinct;
        tables = insert-All IsPathTable d table c.channels v.tables (
          insert-nonempty p sender dc,
          insert-HasDistinctKeys p sender dc (device-HasDistinctKeys d c v),
        );
      }
  apply-IsValid (unregisters d p) c v = elim (Option-cases (HashMap.get d c.channels)) [
    | inl e ↦ rw (e, without) v
    | inr (dc, e) ↦ elim (Bool-cases (is_empty (HashMap.remove p dc))) [
      | inl gone ↦
          rw (e, without, gone)
            (record {
              distinct = remove-HasDistinctKeys d c.channels v.distinct;
              tables = remove-All IsPathTable d c.channels v.tables;
            })
      | inr some_left ↦
          let left = HashMap.remove p dc in
          rw (e, without, some_left)
            (record {
              distinct = insert-HasDistinctKeys d left c.channels v.distinct;
              tables = insert-All IsPathTable d left c.channels v.tables (
                some_left,
                remove-HasDistinctKeys p dc (All-get IsPathTable d dc c.channels v.tables e).1,
              );
            })
    ]
  ]
  apply-IsValid unregisters_all c v = record { distinct = tt; tables = tt }
  apply-IsValid (unregisters_device d) c v = record {
    distinct = remove-HasDistinctKeys d c.channels v.distinct;
    tables = remove-All IsPathTable d c.channels v.tables;
  }

  -- A registration for a device counts once: its count grows by one exactly when the path was not
  -- registered, and no other device's count changes.
  pub device_observer_count-register :
      (d d' p : String) (sender : S) (c : ObserverChannels S)
      → device_observer_count d' (register d p sender c) ≡ (
          if d == d'
          then if is_some (registered d p c)
            then device_observer_count d c
            else suc (device_observer_count d c)
          else device_observer_count d' c)
  unfolding device_observer_count register registered
  device_observer_count-register d d' p sender c =
      let dc = unwrap_or (HashMap.get d c.channels) [] in
      ground (
        arith,
        list_beq_iff d d',
        get-insert d d' (HashMap.insert p sender dc) c.channels,
        length-insert p sender dc,
        get-unwrap_or p (HashMap.get d c.channels),
      )

  empty_device : (d : String) (m : DeviceChannels S) → is_empty m ≡ true → HashMap.get d m ≡ none
  unfolding HashMap.get
  empty_device d [] h = refl
  empty_device d (x ∷ m) h = cc

  first_registered :
      (d : String) (dc : PathChannels S) (rest : DeviceChannels S) (c : ObserverChannels S)
      → c.channels ≡ (d, dc) ∷ rest
      → is_empty dc ≡ false
      → (p : String) × (is_some (registered d p c) ≡ true)
  unfolding registered HashMap.get
  first_registered d [] rest c e h = absurd (false≢true (sym h))
  first_registered d ((p, sender) ∷ dc) rest c e h =
      (p, ground (arith, e, list_beq_iff d d, list_beq_iff p p))

  no_entry :
      (c : ObserverChannels S)
      → IsValid c
      → ((d p : String) → registered d p c ≡ none)
      → c.channels ≡ []
  no_entry c v none_registered = go c.channels refl
    where
      go : (m : DeviceChannels S) → c.channels ≡ m → c.channels ≡ []
      go [] e = e
      go ((d, dc) ∷ rest) e =
          let tables = subst (All IsPathTable) e v.tables in
          let (p, found) = first_registered d dc rest c e tables.0.0 in
          absurd (false≢true (rw (none_registered d p) at found))

  has_no_observers_iff :
      (c : ObserverChannels S)
      → IsValid c
      → (is_empty c.channels ≡ true) ↔ ((d p : String) → registered d p c ≡ none)
  unfolding registered
  has_no_observers_iff c v =
      (λ h d p. ground (arith, empty_device d c.channels h), λ h. ap is_empty (no_entry c v h))

  -- In a valid table `unregister` and `unregister_device` return true exactly when no registration
  -- is left, and so does `is_empty`.
  pub emptiness_iff :
      (d p : String) (c : ObserverChannels S)
      → IsValid c
      → ((has_no_observers c ≡ true) ↔ ((d' p' : String) → registered d' p' c ≡ none))
        × (((unregister d p c).0 ≡ true)
            ↔ ((d' p' : String) → registered d' p' (unregister d p c).1 ≡ none))
        × (((unregister_device d c).0 ≡ true)
            ↔ ((d' p' : String) → registered d' p' (unregister_device d c).1 ≡ none))
  unfolding has_no_observers
  emptiness_iff d p c v = (
    has_no_observers_iff c v,
    unfold unregister in
        has_no_observers_iff (unregister d p c).1
          (unfold apply in apply-IsValid (unregisters d p) c v),
    unfold unregister_device in
        has_no_observers_iff (unregister_device d c).1
          (unfold apply in apply-IsValid (unregisters_device d) c v),
  )

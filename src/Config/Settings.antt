-- ===== src/Config/Settings.antt =====
-- What holds of a configuration that is made by the setters, in whatever order they are called.
use coapum.Prelude.{
  ℕ, ◌+◌, ◌-◌, ◌*◌, ◌^◌, ◌≤◌, ◌<◌, ◌≡◌, refl, Bool-cases, true, ◌&&◌, some, List, [], ◌∷◌, String,
  Bytes, inl, inr, ltb, leb, nat_beq, arith,
}
use coapum.HashMap.{HashMap}
use coapum.Float64.{Float64}
use coapum.Config.{
  Config, set_buffer_size, set_timeout, with_client_management, set_client_command_buffer,
  set_max_message_size, set_block_cache_expiry, set_max_observers_per_device, set_max_connections,
  set_notification_timeout_ms, set_min_reconnect_interval, set_max_reconnect_attempts,
  set_max_session_lifetime, set_shutdown, set_ack_timeout, set_ack_random_factor,
  set_max_retransmit, set_max_latency, exchange_lifetime, default_config, lifetime,
}

-- A call of a setter.
pub data Setting (W F : Type 0) : Type 0 where
  buffer_size timeout client_command_buffer max_message_size block_cache_expiry : ℕ → Setting W F
  max_observers_per_device max_connections notification_timeout_ms min_reconnect_interval :
      ℕ → Setting W F
  max_reconnect_attempts max_session_lifetime ack_timeout max_retransmit max_latency :
      ℕ → Setting W F
  client_management : HashMap String Bytes → Setting W F
  shutdown : W → Setting W F
  ack_random_factor : F → Setting W F

module _ {D W : Type 0} (float : Float64) where
  open float use {Num}

  -- The configuration after a call; an error leaves it as it was.
  unfoldable pub apply : Setting W Num → Config D W Num → Config D W Num
  unfolding set_buffer_size set_timeout
  apply (buffer_size n) c = (set_buffer_size n c).1
  apply (timeout n) c = (set_timeout n c).1
  apply (client_command_buffer n) c = set_client_command_buffer n c
  apply (max_message_size n) c = set_max_message_size n c
  apply (block_cache_expiry n) c = set_block_cache_expiry n c
  apply (max_observers_per_device n) c = set_max_observers_per_device n c
  apply (max_connections n) c = set_max_connections n c
  apply (notification_timeout_ms n) c = set_notification_timeout_ms n c
  apply (min_reconnect_interval n) c = set_min_reconnect_interval n c
  apply (max_reconnect_attempts n) c = set_max_reconnect_attempts n c
  apply (max_session_lifetime n) c = set_max_session_lifetime n c
  apply (ack_timeout n) c = set_ack_timeout n c
  apply (max_retransmit n) c = set_max_retransmit n c
  apply (max_latency n) c = set_max_latency n c
  apply (client_management clients) c = with_client_management clients c
  apply (shutdown rx) c = set_shutdown rx c
  apply (ack_random_factor x) c = set_ack_random_factor float x c

  abbrev pub apply_all : List (Setting W Num) → Config D W Num → Config D W Num
  apply_all [] c = c
  apply_all (s ∷ ss) c = apply_all ss (apply s c)

  -- A buffer of 512 to 65536 bytes, a timeout, and a random factor of at least one.
  pub record IsValid (c : Config D W Num) : Type 0 where
    pub buffer_least : 512 ≤ c.buffer_size
    pub buffer_greatest : c.buffer_size ≤ 65536
    pub timeout_positive : 0 < c.timeout
    pub factor_least : float.leb float.one c.ack_random_factor ≡ true

  covered :
      (c : Config D W Num)
      → IsValid c
      → ((d n : ℕ) (x : Num)
          → float.leb float.one x ≡ true
          → d * n ≤ float.mul_f64 d (float.mul (float.of_u64 n) x))
      → c.max_retransmit < 64
      → (t : ℕ) × (exchange_lifetime float c ≡ some t)
        × (c.ack_timeout * (2 ^ c.max_retransmit - 1) + 2 * c.max_latency + c.ack_timeout ≤ t)
  unfolding exchange_lifetime
  covered c v mul_least few =
      let small : ltb c.max_retransmit 64 ≡ true = ground arith in
      let span =
        mul_least c.ack_timeout (2 ^ c.max_retransmit - 1) c.ack_random_factor v.factor_least in
      (
        lifetime float c (2 ^ c.max_retransmit),
        rw (exchange_lifetime, small) refl,
        omega (arith, span),
      )

  module _ (max_least : (x : Num) → float.leb float.one (float.max x float.one) ≡ true) where
    set_buffer_size-IsValid :
        (n : ℕ) (c : Config D W Num) → IsValid c → IsValid (set_buffer_size n c).1
    unfolding set_buffer_size
    set_buffer_size-IsValid n c v = elim (Bool-cases (leb 512 n && leb n 65536)) [
      | inl e ↦
          rw (set_buffer_size, e)
            (record {
              buffer_least = ground arith;
              buffer_greatest = ground arith;
              timeout_positive = v.timeout_positive;
              factor_least = v.factor_least;
            })
      | inr e ↦ rw (set_buffer_size, e) v
    ]

    set_timeout-IsValid : (n : ℕ) (c : Config D W Num) → IsValid c → IsValid (set_timeout n c).1
    unfolding set_timeout
    set_timeout-IsValid n c v = elim (Bool-cases (nat_beq n 0)) [
      | inl e ↦ rw (set_timeout, e) v
      | inr e ↦
          rw (set_timeout, e)
            (record {
              buffer_least = v.buffer_least;
              buffer_greatest = v.buffer_greatest;
              timeout_positive = ground arith;
              factor_least = v.factor_least;
            })
    ]

    apply-IsValid : (s : Setting W Num) (c : Config D W Num) → IsValid c → IsValid (apply s c)
    unfolding apply
    apply-IsValid (buffer_size n) c v = set_buffer_size-IsValid n c v
    apply-IsValid (timeout n) c v = set_timeout-IsValid n c v
    apply-IsValid (ack_random_factor x) c v = record {
      buffer_least = v.buffer_least;
      buffer_greatest = v.buffer_greatest;
      timeout_positive = v.timeout_positive;
      factor_least = max_least x;
    }
    apply-IsValid _ c v = record {
      buffer_least = v.buffer_least;
      buffer_greatest = v.buffer_greatest;
      timeout_positive = v.timeout_positive;
      factor_least = v.factor_least;
    }

    apply_all_kept :
        (ss : List (Setting W Num)) (c : Config D W Num) → IsValid c → IsValid (apply_all ss c)
    apply_all_kept [] c v = v
    apply_all_kept (s ∷ ss) c v = apply_all_kept ss (apply s c) (apply-IsValid s c v)

    -- Whatever setters are called on the default configuration, in whatever order and with whatever
    -- arguments, its buffer has 512 to 65536 bytes, its timeout is positive, and its random factor is
    -- at least one; if the default factor is, and a maximum with one is at least one.
    pub apply_all-IsValid :
        (three_halves : Num) (ss : List (Setting W Num))
        → float.leb float.one three_halves ≡ true
        → IsValid (apply_all ss (default_config float three_halves))
    apply_all-IsValid three_halves ss e =
        apply_all_kept ss (default_config float three_halves) (record {
          buffer_least = omega arith;
          buffer_greatest = omega arith;
          timeout_positive = omega arith;
          factor_least = e;
        })

    -- Whatever setters are called on a valid configuration, if less than 64 retransmissions are
    -- allowed afterwards then the lifetime of an exchange is defined, and covers the time that all
    -- retransmissions take when every timeout is the base one, twice the latency, and the base
    -- timeout; if a maximum with one is at least one, and multiplying with a factor of at least one
    -- makes no duration shorter.
    pub exchange_lifetime_covers :
        (start : Config D W Num) (ss : List (Setting W Num))
        → IsValid start
        → ((d n : ℕ) (x : Num)
            → float.leb float.one x ≡ true
            → d * n ≤ float.mul_f64 d (float.mul (float.of_u64 n) x))
        → (apply_all ss start).max_retransmit < 64
        → (t : ℕ) × (exchange_lifetime float (apply_all ss start) ≡ some t)
          × ((apply_all ss start).ack_timeout * (2 ^ (apply_all ss start).max_retransmit - 1)
                + 2 * (apply_all ss start).max_latency
                + (apply_all ss start).ack_timeout
              ≤ t)
    exchange_lifetime_covers start ss v mul_least few =
        covered (apply_all ss start) (apply_all_kept ss start v) mul_least few

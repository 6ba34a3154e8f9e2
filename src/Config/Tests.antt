-- ===== src/Config/Tests.antt =====
-- Runs of src/config, and its theorems at concrete inputs, in thousandths.
use coapum.Prelude.{ℕ, ◌≡◌, refl, true, some, List, [], ◌∷◌, max, leb, arith}
use coapum.Samples.{thousandths}
use coapum.Config.{Config, default_config, exchange_lifetime}
use coapum.Config.Settings.{
  Setting, buffer_size, max_retransmit, ack_random_factor, timeout, apply_all, IsValid,
  apply_all-IsValid,
}

abbrev start : Config ℕ ℕ ℕ
start = default_config thousandths 1500

-- 247 seconds, as the comment on the function says.
default_lifetime : exchange_lifetime thousandths start ≡ some 247_000_000_000
unfolding exchange_lifetime
default_lifetime = refl

abbrev settings : List (Setting ℕ ℕ)
settings = buffer_size 100 ∷ timeout 0 ∷ ack_random_factor 500 ∷ max_retransmit 5 ∷ []

max_least : (x : ℕ) → leb 1000 (max x 1000) ≡ true
max_least x = ground arith

apply_all-IsValid_example : IsValid {D = ℕ} thousandths (apply_all thousandths settings start)
apply_all-IsValid_example = apply_all-IsValid thousandths max_least 1500 settings refl

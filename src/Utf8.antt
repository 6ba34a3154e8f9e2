-- ===== src/Utf8.antt =====
-- `from_utf8` of Rust's standard library: the code points of a well-formed byte string.
pub mod Ascii
use coapum.Prelude.{
  ℕ, zero, suc, ◌+◌, ◌-◌, ◌*◌, Option, none, some, [], ◌∷◌, leb, ltb, if◌then◌else◌, ◌&&◌, ◌≡◌,
  refl, arith, All, ◌<◌, ◌≤◌, String, Bytes,
}

-- What a first byte leaves to be read: how many bytes, between which bounds the next one lies, and
-- the bits that are read.
pub record Lead : Type 0 where
  pub more : ℕ
  pub low : ℕ
  pub high : ℕ
  pub bits : ℕ

abbrev lead_of : ℕ → ℕ → ℕ → ℕ → Option Lead
lead_of more low high bits = some (record { more = more; low = low; high = high; bits = bits })

unfoldable pub lead : ℕ → Option Lead
lead b =
    if ltb b 0xc2
    then none
    else if ltb b 0xe0
    then lead_of 1 0x80 0xbf (b - 0xc0)
    else if ltb b 0xe1
    then lead_of 2 0xa0 0xbf (b - 0xe0)
    else if ltb b 0xed
    then lead_of 2 0x80 0xbf (b - 0xe0)
    else if ltb b 0xee
    then lead_of 2 0x80 0x9f (b - 0xe0)
    else if ltb b 0xf0
    then lead_of 2 0x80 0xbf (b - 0xe0)
    else if ltb b 0xf1
    then lead_of 3 0x90 0xbf (b - 0xf0)
    else if ltb b 0xf4
    then lead_of 3 0x80 0xbf (b - 0xf0)
    else if ltb b 0xf5
    then lead_of 3 0x80 0x8f (b - 0xf0)
    else none

abbrev pub idle : Lead
idle = record { more = 0; low = 0; high = 0; bits = 0 }

abbrev pub first : ℕ → Option Lead → Option (Option ℕ × Lead)
first b none = none
first b (some l) = some (none, l)

abbrev pub continued : ℕ → ℕ → Option (Option ℕ × Lead)
continued zero bits = some (some bits, idle)
continued (suc more) bits =
    some (none, record { more = suc more; low = 0x80; high = 0xbf; bits = bits })

abbrev pub next : ℕ → Lead → ℕ → Option (Option ℕ × Lead)
next zero l b = if ltb b 0x80 then some (some b, idle) else first b (lead b)
next (suc more) l b =
    if leb l.low b && leb b l.high then continued more (l.bits * 64 + (b - 0x80)) else none

-- One byte: the code point that it ends, if it ends one, and what is then left to read.
step : Lead → ℕ → Option (Option ℕ × Lead)
step l b = next l.more l b

abbrev pub emit : Option ℕ → Option String → Option String
emit _ none = none
emit none (some s) = some s
emit (some c) (some s) = some (c ∷ s)

abbrev pub at_end : ℕ → Option String
at_end zero = some []
at_end (suc _) = none

decode : Lead → Bytes → Option String
decode l [] = at_end l.more
decode l (b ∷ s) = elim (step l b) [ none ↦ none | some (c, l') ↦ emit c (decode l' s) ]

unfoldable pub from_utf8 : Bytes → Option String
unfolding decode step lead
from_utf8 bytes = decode idle bytes

-- ASCII bytes are their own code points.
pub from_utf8_of_ascii : (s : Bytes) → All (λ b. b < 0x80) s → from_utf8 s ≡ some s
unfolding from_utf8
from_utf8_of_ascii [] h = refl
from_utf8_of_ascii (b ∷ s) (p, h) = ground (arith, from_utf8_of_ascii s h)

-- A byte that only continues a sequence begins none.
pub from_utf8_of_continuation : (b : ℕ) (s : Bytes) → 0x80 ≤ b → b < 0xc2 → from_utf8 (b ∷ s) ≡ none
unfolding from_utf8
from_utf8_of_continuation b s h k = ground arith

-- "é", "€", an overlong form and a surrogate
decodes :
    (from_utf8 (0xc3 ∷ 0xa9 ∷ 0x41 ∷ []) ≡ some (0xe9 ∷ 0x41 ∷ []))
    × (from_utf8 (0xe2 ∷ 0x82 ∷ 0xac ∷ []) ≡ some (0x20ac ∷ []))
    × (from_utf8 (0xc0 ∷ 0x80 ∷ []) ≡ none)
    × (from_utf8 (0xed ∷ 0xa0 ∷ 0x80 ∷ []) ≡ none)
unfolding from_utf8
decodes = (refl, refl, refl, refl)

-- ===== src/Str.antt =====
-- The operations of Rust's `str` that the program uses, over lists of code points.
pub mod Split
use coapum.Prelude.{
  ℕ, Bool, true, false, ◌&&◌, ◌||◌, Option, none, some, List, [], ◌∷◌, ◌++◌, nat_beq, leb,
  if◌then◌else◌, is_empty, String, not, filter, ltb, ◌+◌,
}

abbrev pub slash : ℕ
slash = b'/'

-- `strip_prefix` by a text.
unfoldable pub strip_prefix : String → String → Option String
strip_prefix [] s = some s
strip_prefix (c ∷ pat) [] = none
strip_prefix (c ∷ pat) (x ∷ s) = if nat_beq c x then strip_prefix pat s else none

unfoldable pub starts_with : String → String → Bool
starts_with [] s = true
starts_with (c ∷ pat) [] = false
starts_with (c ∷ pat) (x ∷ s) = nat_beq c x && starts_with pat s

-- `contains` with a text as the pattern.
unfoldable pub contains : String → String → Bool
unfolding starts_with
contains pat [] = starts_with pat []
contains pat (x ∷ s) = starts_with pat (x ∷ s) || contains pat s

abbrev pub extend_first : ℕ → List String → List String
extend_first x [] = (x ∷ []) ∷ []
extend_first x (w ∷ ws) = (x ∷ w) ∷ ws

-- `split` at a character: the parts between its occurrences, one more than these.
unfoldable pub split : ℕ → String → List String
split c [] = [] ∷ []
split c (x ∷ s) = let rest = split c s in if nat_beq x c then [] ∷ rest else extend_first x rest

unfoldable pub join : String → List String → String
join sep [] = []
join sep (w ∷ []) = w
join sep (w ∷ v ∷ ws) = w ++ (sep ++ join sep (v ∷ ws))

abbrev pub is_ascii_alphanumeric : ℕ → Bool
is_ascii_alphanumeric c =
    (leb b'0' c && leb c b'9') || ((leb b'A' c && leb c b'Z') || (leb b'a' c && leb c b'z'))

-- The printable ASCII characters but the space.
abbrev pub is_ascii_graphic : ℕ → Bool
is_ascii_graphic c = leb 0x21 c && leb c 0x7e

-- `split('/').filter(|s| !s.is_empty())`, as the program writes it in four places.
unfoldable pub components : String → List String
unfolding split
components path = filter (λ s. not (is_empty s)) (split slash path)

-- The parts before and after the last occurrence of a character, by `rfind`.
unfoldable pub rsplit_once : ℕ → String → Option (String × String)
rsplit_once c [] = none
rsplit_once c (x ∷ s) = elim (rsplit_once c s) [
  | some (before, after) ↦ some (x ∷ before, after)
  | none ↦ if nat_beq x c then some ([], s) else none
]

-- `ends_with` a character.
unfoldable pub ends_with : ℕ → String → Bool
ends_with c [] = false
ends_with c (x ∷ []) = nat_beq x c
ends_with c (x ∷ y ∷ s) = ends_with c (y ∷ s)

-- `char::is_control`: the general category Cc.
abbrev pub is_control : ℕ → Bool
is_control c = ltb c 0x20 || (leb 0x7f c && leb c 0x9f)

-- The length of a text in bytes, which is what `str::len` counts.
abbrev pub char_width : ℕ → ℕ
char_width c = if ltb c 0x80 then 1 else if ltb c 0x800 then 2 else if ltb c 0x10000 then 3 else 4

unfoldable pub utf8_length : String → ℕ
utf8_length [] = 0
utf8_length (c ∷ s) = char_width c + utf8_length s

-- ===== src/Serve/Identity.antt =====
-- `extract_identity` of src/serve.rs.
pub mod Laws
use coapum.Prelude.{
  ℕ, Bool, true, false, Option, none, some, String, Bytes, length, is_empty, all, not, leb, ltb,
  nat_beq, ◌&&◌, if◌then◌else◌,
}
use coapum.Utf8.{from_utf8}

abbrev pub max_identity_length : ℕ
max_identity_length = 256

abbrev pub backslash : ℕ
backslash = 92

-- `is_ascii_graphic`, and no path separator
abbrev pub is_safe_char : ℕ → Bool
is_safe_char c = leb 33 c && leb c 126 && not (nat_beq c 47) && not (nat_beq c backslash)

unfoldable pub extract_identity : Bytes → Option String
extract_identity identity_hint =
    if ltb max_identity_length (length identity_hint)
    then none
    else elim (from_utf8 identity_hint) [
      | none ↦ none
      | some s ↦ if is_empty s then none else if all is_safe_char s then some s else none
    ]

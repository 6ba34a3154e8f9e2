-- ===== src/Extract/Path.antt =====
-- src/extract/path.rs: the parameters in the path of a request.
pub mod Laws
use coapum.Prelude.{
  ℕ, Bool, true, false, not, ◌&&◌, Option, none, some, List, [], ◌∷◌, String, codes, is_empty,
  length, nat_beq, ltb, Result, ok, err, unwrap_or, if◌then◌else◌, ◌==◌, string_eq,
}
use coapum.Str.{slash, split, strip_prefix, ends_with, starts_with, components}

pub data PathRejectionKind : Type 0 where
  failed_to_deserialize_path_params : String → PathRejectionKind
  missing_path_params : PathRejectionKind
  invalid_path_pattern : PathRejectionKind

abbrev pub device_prefix : String
device_prefix = codes ".d/"

abbrev pub stream_prefix : String
stream_prefix = codes ".s/"

-- The path without a leading slash.
abbrev pub without_slash : String → String
without_slash path = unwrap_or (strip_prefix (slash ∷ []) path) path

-- `last`
abbrev pub last : List String → Option String
last [] = none
last (w ∷ []) = some w
last (w ∷ v ∷ ws) = last (v ∷ ws)

-- What is after the first slash, by `find`.
unfoldable pub after_first : ℕ → String → Option String
after_first c [] = none
after_first c (x ∷ s) = if nat_beq x c then some s else after_first c s

-- The first that is there.
abbrev pub or_next : Option String → Option String → Option String
or_next (some s) o = some s
or_next none o = o

abbrev pub nonempty : Option String → Option String
nonempty none = none
nonempty (some []) = none
nonempty (some (c ∷ s)) = some (c ∷ s)

abbrev pub last_of_several : List String → Option String
last_of_several segments = if ltb (length segments) 2 then none else last segments

unfoldable pub extract_wildcard_param : String → Option String
unfolding strip_prefix split
extract_wildcard_param path =
    let path = without_slash path in
    or_next (strip_prefix device_prefix path)
      (or_next (strip_prefix stream_prefix path) (last_of_several (split slash path)))

-- What is wanted of a path without a leading slash.
abbrev pub wildcard_rest : String → Option String
wildcard_rest path =
    or_next (strip_prefix device_prefix path)
      (or_next (strip_prefix stream_prefix path) (nonempty (after_first slash path)))

unfoldable pub extract_wildcard_path : String → Option String
unfolding strip_prefix after_first
extract_wildcard_path path = wildcard_rest (without_slash path)

-- `Path<String>::from_request`, of the path of the request.
unfoldable pub from_request : String → Result PathRejectionKind String
unfolding extract_wildcard_path
from_request path = elim (extract_wildcard_path path) [
  | none ↦ err missing_path_params
  | some param ↦ ok param
]

-- `seg[1..seg.len() - 1]`
abbrev pub without_last : String → String
without_last [] = []
without_last (c ∷ []) = []
without_last (c ∷ d ∷ s) = c ∷ without_last (d ∷ s)

abbrev pub param_name : String → String
param_name [] = []
param_name (c ∷ s) = without_last s

unfoldable pub is_param : String → Bool
unfolding ends_with starts_with
is_param seg = starts_with (b'{' ∷ []) seg && ends_with b'}' seg

abbrev pub push_param :
    String × String → Option (List (String × String)) → Option (List (String × String))
push_param param none = none
push_param param (some params) = some (param ∷ params)

-- The loop over the pairs of segments.
unfoldable pub match_segments : List String → List String → Option (List (String × String))
unfolding is_param
match_segments (path_seg ∷ path_segs) (pattern_seg ∷ pattern_segs) =
    let rest = match_segments path_segs pattern_segs in
    if is_param pattern_seg
    then push_param (param_name pattern_seg, path_seg) rest
    else if path_seg == pattern_seg
    then rest
    else none
match_segments [] pattern_segs = some []
match_segments (path_seg ∷ path_segs) [] = some []

unfoldable pub extract_path_params : String → String → Option (List (String × String))
unfolding components match_segments
extract_path_params path pattern' =
    if nat_beq (length (components path)) (length (components pattern'))
    then match_segments (components path) (components pattern')
    else none

-- ===== src/Senml/Base64.antt =====
-- `base64_encode` and `base64_decode` of coapum-senml/src/record.rs, which normalize.rs repeats. The
-- bits that the source joins by `|` do not overlap, so they are added here. The text of an error is
-- not modelled: every caller asks only whether there is one.
pub mod RoundTrip
use coapum.Prelude.{
  ℕ, zero, suc, ◌+◌, ◌-◌, ◌*◌, ◌/◌, ◌%◌, Bool, ◌&&◌, Option, none, some, List, [], ◌∷◌, ◌++◌,
  String, Bytes, codes, nat_beq, leb, not, filter, if◌then◌else◌, ◌≡◌, refl,
}

unfoldable pub alphabet : String
alphabet = codes "ABCDEFGHIJKLMNOPQRSTUVWXYZabcdefghijklmnopqrstuvwxyz0123456789+/"

abbrev pub char_at : String → ℕ → ℕ
char_at [] i = 0
char_at (c ∷ s) zero = c
char_at (c ∷ s) (suc i) = char_at s i

abbrev pub padding : ℕ
padding = b'='

-- `ALPHABET[((combined >> shift) & 0x3F) as usize]`, where `place` is `2 ^ shift`.
unfoldable pub sextet : ℕ → ℕ → ℕ
unfolding alphabet
sextet combined place = char_at alphabet (combined / place % 64)

unfoldable pub base64_encode : Bytes → String
unfolding sextet
base64_encode [] = []
base64_encode (b1 ∷ []) =
    let combined = b1 * 65536 in
    sextet combined 262144 ∷ sextet combined 4096 ∷ padding ∷ padding ∷ []
base64_encode (b1 ∷ b2 ∷ []) =
    let combined = b1 * 65536 + b2 * 256 in
    sextet combined 262144 ∷ sextet combined 4096 ∷ sextet combined 64 ∷ padding ∷ []
base64_encode (b1 ∷ b2 ∷ b3 ∷ data') =
    let combined = b1 * 65536 + b2 * 256 + b3 in
    sextet combined 262144
    ∷ sextet combined 4096
    ∷ sextet combined 64
    ∷ sextet combined 1
    ∷ base64_encode data'

-- The value of a character.
unfoldable pub sextet_value : ℕ → Option ℕ
sextet_value c =
    if leb b'A' c && leb c b'Z'
    then some (c - b'A')
    else if leb b'a' c && leb c b'z'
    then some (c - b'a' + 26)
    else if leb b'0' c && leb c b'9'
    then some (c - b'0' + 52)
    else if nat_beq c b'+'
    then some 62
    else if nat_beq c b'/'
    then some 63
    else none

-- The bytes of one chunk of two, three or four values.
abbrev byte_at : ℕ → ℕ → ℕ
byte_at combined place = combined / place % 256

two : Option ℕ → Option ℕ → Option Bytes
two (some v1) (some v2) = some (byte_at (v1 * 262144 + v2 * 4096) 65536 ∷ [])
two _ _ = none

three : Option ℕ → Option ℕ → Option ℕ → Option Bytes
three (some v1) (some v2) (some v3) =
    let combined = v1 * 262144 + v2 * 4096 + v3 * 64 in
    some (byte_at combined 65536 ∷ byte_at combined 256 ∷ [])
three _ _ _ = none

four : Option ℕ → Option ℕ → Option ℕ → Option ℕ → Option Bytes → Option Bytes
four (some v1) (some v2) (some v3) (some v4) (some rest) =
    let combined = v1 * 262144 + v2 * 4096 + v3 * 64 + v4 in
    some (byte_at combined 65536 ∷ byte_at combined 256 ∷ byte_at combined 1 ∷ rest)
four _ _ _ _ _ = none

-- The loop over the chunks of four characters.
decode_chunks : String → Option Bytes
unfolding sextet_value two three four
decode_chunks [] = some []
decode_chunks (c1 ∷ []) = none
decode_chunks (c1 ∷ c2 ∷ []) = two (sextet_value c1) (sextet_value c2)
decode_chunks (c1 ∷ c2 ∷ c3 ∷ []) = three (sextet_value c1) (sextet_value c2) (sextet_value c3)
decode_chunks (c1 ∷ c2 ∷ c3 ∷ c4 ∷ rest) =
    four (sextet_value c1) (sextet_value c2) (sextet_value c3) (sextet_value c4)
      (decode_chunks rest)

abbrev pub is_payload : ℕ → Bool
is_payload c = not (nat_beq c padding)

unfoldable pub base64_decode : String → Option Bytes
unfolding decode_chunks
base64_decode s = decode_chunks (filter is_payload s)

encodes : base64_encode (codes "foobar!") ≡ codes "Zm9vYmFyIQ=="
unfolding base64_encode
encodes = refl

decodes : base64_decode (codes "Zm9vYmFyIQ==") ≡ some (codes "foobar!")
unfolding base64_decode
decodes = refl

refuses : base64_decode (codes "Zm9v!") ≡ none
unfolding base64_decode
refuses = refl

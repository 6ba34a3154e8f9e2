-- ===== src/Senml/Base64/RoundTrip.antt =====
-- What decoding makes of an encoding, and which bytes it yields.
use mathlib.Core.Path.{ap₂, subst}
use mathlib.Core.Option.{some-injective}
use coapum.Prelude.{
  ℕ, zero, suc, ◌+◌, ◌*◌, ◌/◌, ◌%◌, ◌<◌, ◌≡◌, refl, ap, Bool, true, false, ◌&&◌, Option, none, some,
  [], ◌∷◌, String, Bytes, nat_beq, All, filter, arith, Bool-cases, nat_beq_iff, inl, inr,
}
use coapum.Senml.Base64.{
  alphabet, char_at, sextet, base64_encode, sextet_value, two, three, four, decode_chunks,
  is_payload, base64_decode,
}

abbrev pub IsByte : ℕ → Type 0
IsByte b = b < 256

-- Whether a character has this value.
is_value : Option ℕ → ℕ → Bool
is_value none k = false
is_value (some v) k = nat_beq v k

is_value_sound : (o : Option ℕ) (k : ℕ) → is_value o k ≡ true → o ≡ some k
unfolding is_value
is_value_sound none k h = cc
is_value_sound (some v) k h = ground arith

-- Whether every position below `n` holds the character of its own value.
is_table : ℕ → Bool
unfolding alphabet sextet_value is_value
is_table zero = true
is_table (suc n) = is_value (sextet_value (char_at alphabet n)) n && is_table n

below : (i n : ℕ) → i < suc n → nat_beq i n ≡ false → i < n
below i n lt e = ground arith

both : (a b : Bool) → (a && b) ≡ true → (a ≡ true) × (b ≡ true)
both true b h = (refl, h)
both false b h = cc

is_table_sound : (n i : ℕ) → is_table n ≡ true → i < n → sextet_value (char_at alphabet i) ≡ some i
unfolding is_table
is_table_sound zero i h lt = absurd (omega arith)
is_table_sound (suc n) i h lt = elim (Bool-cases (nat_beq i n)) [
  | inl e ↦
      rw ((nat_beq_iff i n).0 e)
        (is_value_sound (sextet_value (char_at alphabet n)) n (both _ (is_table n) h).0)
  | inr e ↦ is_table_sound n i (both _ (is_table n) h).1 (below i n lt e)
]

table : is_table 64 ≡ true
unfolding is_table
table = refl

sextet_value-sextet :
    (combined place : ℕ) → sextet_value (sextet combined place) ≡ some (combined / place % 64)
unfolding sextet
sextet_value-sextet combined place = is_table_sound 64 (combined / place % 64) table (omega arith)

is_payload_of_value : (c v : ℕ) → sextet_value c ≡ some v → is_payload c ≡ true
unfolding sextet_value
is_payload_of_value c v h = ground arith

is_payload-sextet : (combined place : ℕ) → is_payload (sextet combined place) ≡ true
is_payload-sextet combined place =
    is_payload_of_value (sextet combined place) _ (sextet_value-sextet combined place)

-- The sextets of a number below 2 ^ 24, joined again.
joined :
    (n : ℕ)
    → n < 16777216
    → n / 262144 % 64 * 262144 + n / 4096 % 64 * 4096 + n / 64 % 64 * 64 + n / 1 % 64 ≡ n
joined n b = omega arith

joined_three :
    (n : ℕ)
    → n < 16777216
    → n % 64 ≡ 0
    → n / 262144 % 64 * 262144 + n / 4096 % 64 * 4096 + n / 64 % 64 * 64 ≡ n
joined_three n b z = omega arith

joined_two :
    (n : ℕ) → n < 16777216 → n % 4096 ≡ 0 → n / 262144 % 64 * 262144 + n / 4096 % 64 * 4096 ≡ n
joined_two n b z = omega arith

first_byte : (b1 low : ℕ) → b1 < 256 → low < 65536 → (b1 * 65536 + low) / 65536 % 256 ≡ b1
first_byte b1 low h l = omega arith

second_byte :
    (b1 b2 low : ℕ) → b2 < 256 → low < 256 → (b1 * 65536 + b2 * 256 + low) / 256 % 256 ≡ b2
second_byte b1 b2 low h l = omega arith

third_byte : (b1 b2 b3 : ℕ) → b3 < 256 → (b1 * 65536 + b2 * 256 + b3) / 1 % 256 ≡ b3
third_byte b1 b2 b3 h = omega arith

-- What is encoded decodes to the same bytes.
pub base64_decode-encode :
    (bytes : Bytes) → All IsByte bytes → base64_decode (base64_encode bytes) ≡ some bytes
unfolding base64_decode base64_encode two three four
base64_decode-encode [] h = refl
base64_decode-encode (b1 ∷ []) (h1, _) =
    simp (is_payload-sextet, sextet_value-sextet, decode_chunks)
      (rw (joined_two (b1 * 65536) (omega arith) (omega arith))
        (ap (λ b. some (b ∷ [])) (omega arith)))
base64_decode-encode (b1 ∷ b2 ∷ []) (h1, (h2, _)) =
    simp (is_payload-sextet, sextet_value-sextet, decode_chunks)
      (rw (joined_three (b1 * 65536 + b2 * 256) (omega arith) (omega arith))
        (ap₂ (λ b c. some (b ∷ c ∷ [])) (omega arith) (omega arith)))
base64_decode-encode (b1 ∷ b2 ∷ b3 ∷ bytes) (h1, (h2, (h3, h))) =
    simp (is_payload-sextet, sextet_value-sextet, decode_chunks)
      (rw
        (
          base64_decode-encode bytes h,
          joined (b1 * 65536 + b2 * 256 + b3) (omega arith),
          third_byte b1 b2 b3 h3,
          second_byte b1 b2 b3 h2 h3,
        )
        (ap (λ b. some (b ∷ b2 ∷ b3 ∷ bytes)) (omega arith)))

two-IsByte : (o1 o2 : Option ℕ) (d : Bytes) → two o1 o2 ≡ some d → All IsByte d
unfolding two
two-IsByte (some v1) (some v2) d h = subst (All IsByte) (some-injective _ _ h) (omega arith)
two-IsByte none o2 d h = cc
two-IsByte (some v1) none d h = cc

three-IsByte : (o1 o2 o3 : Option ℕ) (d : Bytes) → three o1 o2 o3 ≡ some d → All IsByte d
unfolding three
three-IsByte (some v1) (some v2) (some v3) d h =
    subst (All IsByte) (some-injective _ _ h) (omega arith)
three-IsByte none o2 o3 d h = cc
three-IsByte (some v1) none o3 d h = cc
three-IsByte (some v1) (some v2) none d h = cc

four-IsByte :
    (o1 o2 o3 o4 : Option ℕ) (rest : Option Bytes) (d : Bytes)
    → ((r : Bytes) → rest ≡ some r → All IsByte r)
    → four o1 o2 o3 o4 rest ≡ some d
    → All IsByte d
unfolding four
four-IsByte (some v1) (some v2) (some v3) (some v4) (some r) d k h =
    subst (All IsByte) (some-injective _ _ h) (omega arith, (omega arith, (omega arith, k r refl)))
four-IsByte none o2 o3 o4 rest d k h = cc
four-IsByte (some v1) none o3 o4 rest d k h = cc
four-IsByte (some v1) (some v2) none o4 rest d k h = cc
four-IsByte (some v1) (some v2) (some v3) none rest d k h = cc
four-IsByte (some v1) (some v2) (some v3) (some v4) none d k h = cc

decode_chunks-IsByte : (s : String) (d : Bytes) → decode_chunks s ≡ some d → All IsByte d
unfolding decode_chunks
decode_chunks-IsByte [] d h = subst (All IsByte) (some-injective _ _ h) tt
decode_chunks-IsByte (c1 ∷ []) d h = cc
decode_chunks-IsByte (c1 ∷ c2 ∷ []) d h = two-IsByte (sextet_value c1) (sextet_value c2) d h
decode_chunks-IsByte (c1 ∷ c2 ∷ c3 ∷ []) d h =
    three-IsByte (sextet_value c1) (sextet_value c2) (sextet_value c3) d h
decode_chunks-IsByte (c1 ∷ c2 ∷ c3 ∷ c4 ∷ rest) d h =
    four-IsByte (sextet_value c1) (sextet_value c2) (sextet_value c3) (sextet_value c4)
      (decode_chunks rest) d (λ r e. decode_chunks-IsByte rest r e) h

-- Whatever text decodes, the result consists of bytes.
pub base64_decode-IsByte : (s : String) (d : Bytes) → base64_decode s ≡ some d → All IsByte d
unfolding base64_decode
base64_decode-IsByte s d h = decode_chunks-IsByte (filter is_payload s) d h

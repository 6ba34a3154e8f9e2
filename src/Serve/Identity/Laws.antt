-- ===== src/Serve/Identity/Laws.antt =====
-- Which identities the server accepts.
use coapum.Prelude.{
  ℕ, ◌≤◌, ◌<◌, ◌≡◌, ◌≢◌, ◌↔◌, refl, true, false, Bool-cases, inl, inr, none, some, Option-cases, [],
  ◌∷◌, String, Bytes, length, is_empty, all, All, arith, ltb, leb, nat_beq, nat_beq_iff,
  if◌then◌else◌,
}
use coapum.Utf8.{from_utf8, from_utf8_of_ascii}
use coapum.Utf8.Ascii.{from_utf8-IsAscii}
use coapum.Serve.Identity.{extract_identity, is_safe_char, max_identity_length}

-- A printable ASCII character that is no space, no slash and no backslash.
abbrev pub IsIdentityByte : ℕ → Type 0
IsIdentityByte b = (33 ≤ b) × (b ≤ 126) × (b ≢ 47) × (b ≢ 92)

beq_of : (a b : ℕ) → a ≢ b → nat_beq a b ≡ false
beq_of a b n = elim (Bool-cases (nat_beq a b)) [
  | inl e ↦ absurd (n ((nat_beq_iff a b).0 e))
  | inr e ↦ e
]

safe_of : (b : ℕ) → IsIdentityByte b → is_safe_char b ≡ true
safe_of b (low, high, slash, backslash) =
    let l : leb 33 b ≡ true = ground (arith, low) in
    let h : leb b 126 ≡ true = ground (arith, high) in
    rw (l, h, beq_of b 47 slash, beq_of b 92 backslash) refl

of_safe : (b : ℕ) → is_safe_char b ≡ true → IsIdentityByte b
of_safe b e = (
  ground (arith, e),
  ground (arith, e),
  λ h. absurd (ground (arith, e, h)),
  λ h. absurd (ground (arith, e, h)),
)

all_safe_of : (s : String) → All IsIdentityByte s → all is_safe_char s ≡ true
all_safe_of [] h = refl
all_safe_of (b ∷ s) (p, h) = rw (safe_of b p, all_safe_of s h) refl

of_all_safe : (s : String) → all is_safe_char s ≡ true → All IsIdentityByte s
of_all_safe [] e = tt
of_all_safe (b ∷ s) e = elim (Bool-cases (is_safe_char b)) [
  | inl k ↦ (of_safe b k, of_all_safe s (rw k at e))
  | inr k ↦ let e' : false ≡ true = rw k at e in absurd cc
]

ascii_of : (s : String) → All IsIdentityByte s → All (λ b. b < 0x80) s
ascii_of [] h = tt
ascii_of (b ∷ s) ((_, high, _, _), h) = (omega arith, ascii_of s h)

length-full : (s : String) → 1 ≤ length s → is_empty s ≡ false
length-full [] h = absurd (omega arith)
length-full (b ∷ s) h = refl

-- An identity is accepted exactly if it has 1 to 256 bytes, each of them a printable ASCII character
-- that is no space, no slash and no backslash; it is accepted unchanged.
pub extract_identity-eq-some_iff :
    (hint : Bytes) (s : String)
    → (extract_identity hint ≡ some s)
      ↔ ((s ≡ hint) × (1 ≤ length hint) × (length hint ≤ 256) × All IsIdentityByte hint)
unfolding extract_identity
extract_identity-eq-some_iff hint s =
    (accepted, λ (same, full, bound, safe). rw same (back full bound safe))
  where
    checked :
        length hint ≤ 256
        → (t : String) → from_utf8 hint ≡ some t
        → (if is_empty t then none else if all is_safe_char t then some t else none) ≡ some s
        → (s ≡ hint) × (1 ≤ length hint) × (length hint ≤ 256) × All IsIdentityByte hint
    checked bound [] f h = absurd cc
    checked bound (c ∷ t) f h = elim (Bool-cases (all is_safe_char (c ∷ t))) [
      | inl g ↦
          let safe = of_all_safe (c ∷ t) g in
          let h' : some (c ∷ t) ≡ some s = rw g at h in
          let same : hint ≡ c ∷ t = from_utf8-IsAscii hint (c ∷ t) f (ascii_of (c ∷ t) safe) in
          let kept : s ≡ hint = cc in (kept, rw same (omega arith), bound, rw same safe)
      | inr g ↦ let e' : none ≡ some s = rw g at h in absurd cc
    ]

    accepted :
        extract_identity hint ≡ some s
        → (s ≡ hint) × (1 ≤ length hint) × (length hint ≤ 256) × All IsIdentityByte hint
    accepted h = elim (Bool-cases (ltb max_identity_length (length hint))) [
      | inl e ↦ let e' : none ≡ some s = rw (extract_identity, e) at h in absurd cc
      | inr e ↦ elim (Option-cases (from_utf8 hint)) [
        | inl f ↦ let e' : none ≡ some s = rw (extract_identity, e, f) at h in absurd cc
        | inr (t, f) ↦ checked (ground arith) t f (rw (extract_identity, e, f) at h)
      ]
    ]

    back :
        1 ≤ length hint
        → length hint ≤ 256
        → All IsIdentityByte hint
        → extract_identity hint ≡ some hint
    back full bound safe =
        let short : ltb max_identity_length (length hint) ≡ false = ground arith in
        rw
          (
            extract_identity,
            short,
            from_utf8_of_ascii hint (ascii_of hint safe),
            length-full hint full,
            all_safe_of hint safe,
          )
          refl

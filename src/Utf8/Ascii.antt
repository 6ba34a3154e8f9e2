-- ===== src/Utf8/Ascii.antt =====
-- What decodes to ASCII is ASCII: a sequence of several bytes ends in a code point of 128 or more.
use mathlib.Core.Path.{subst}
use coapum.Prelude.{
  ℕ, zero, suc, ◌+◌, ◌-◌, ◌*◌, ◌≤◌, ◌<◌, ◌≡◌, ◌⊎◌, Bool-cases, inl, inr, refl, ap, sym, ◌∙◌, Bool,
  Bool-cases, true, false, ◌&&◌, Option, none, some, [], ◌∷◌, All, String, Bytes, leb, ltb,
  if◌then◌else◌, arith,
}
use coapum.Utf8.{Lead, lead, idle, first, emit, step, decode, from_utf8}

-- A sequence that goes on and can only end in a code point of 128 or more.
IsLong : Lead → Type 0
IsLong l =
    (1 ≤ l.more) × (0x80 ≤ l.low) × ((2 ≤ l.bits) ⊎ (2 ≤ l.more) × ((1 ≤ l.bits) ⊎ (0x82 ≤ l.low)))

LongIfAny : Option Lead → Type 0
LongIfAny none = Unit
LongIfAny (some l) = IsLong l

split_if :
    {A : Type 0} (P : A → Type 0) (b : Bool) (x y : A)
    → (b ≡ true → P x)
    → (b ≡ false → P y)
    → P (if b then x else y)
split_if P true x y f g = f refl
split_if P false x y f g = g refl

-- A first byte of more than seven bits begins such a sequence, or is refused.
lead-LongIfAny : (b : ℕ) → LongIfAny (lead b)
unfolding lead LongIfAny IsLong
lead-LongIfAny b =
    split_if LongIfAny (ltb b 0xc2) _ _ (λ _. tt)
      (λ e.
        split_if LongIfAny (ltb b 0xe0) _ _ (λ _. (omega arith, omega arith, inl (ground arith)))
          (λ _.
            split_if LongIfAny (ltb b 0xe1) _ _
              (λ _. (omega arith, omega arith, inr (omega arith, inr (omega arith))))
              (λ f.
                split_if LongIfAny (ltb b 0xed) _ _
                  (λ _. (omega arith, omega arith, inr (omega arith, inl (ground arith))))
                  (λ g.
                    split_if LongIfAny (ltb b 0xee) _ _
                      (λ _. (omega arith, omega arith, inl (ground arith)))
                      (λ h.
                        split_if LongIfAny (ltb b 0xf0) _ _
                          (λ _. (omega arith, omega arith, inl (ground arith)))
                          (λ _.
                            split_if LongIfAny (ltb b 0xf1) _ _
                              (λ _.
                                (omega arith, omega arith, inr (omega arith, inr (omega arith))))
                              (λ i.
                                split_if LongIfAny (ltb b 0xf4) _ _
                                  (λ _. (
                                    omega arith,
                                    omega arith,
                                    inr (omega arith, inl (ground arith)),
                                  ))
                                  (λ j.
                                    split_if LongIfAny (ltb b 0xf5) _ _
                                      (λ _. (omega arith, omega arith, inl (ground arith)))
                                      (λ _. tt)))))))))

emit-none : (o : Option String) (s : String) → emit none o ≡ some s → o ≡ some s
emit-none none s e = absurd cc
emit-none (some t) s e = e

emit-some :
    (c : ℕ) (o : Option String) (s : String)
    → emit (some c) o ≡ some s
    → (t : String) × (o ≡ some t) × (s ≡ c ∷ t)
emit-some c none s e = absurd cc
emit-some c (some t) s e = (t, refl, cc)

IsAscii : String → Type 0
IsAscii s = All (λ c. c < 0x80) s

abbrev lead_of : ℕ → ℕ → ℕ → ℕ → Lead
lead_of more low high bits = record { more = more; low = low; high = high; bits = bits }

-- The last byte of a sequence gives 128 or more.
last_byte :
    (bytes : Bytes) (low high bits b : ℕ) (s : String)
    → IsLong (lead_of 1 low high bits)
    → emit (some (bits * 64 + (b - 0x80))) (decode idle bytes) ≡ some s
    → IsAscii s
    → ⊥
unfolding IsLong IsAscii
last_byte bytes low high bits b s (_, _, h) e a =
    let (t, _, same) = emit-some _ (decode idle bytes) s e in
    let (c, _) : (bits * 64 + (b - 0x80) < 0x80) × IsAscii t = subst IsAscii same a in
    elim h [ inl two ↦ omega arith | inr (more, _) ↦ omega arith ]

-- A byte that is not the last keeps the sequence long.
next_byte :
    (more low high bits b : ℕ)
    → IsLong (lead_of (suc (suc more)) low high bits)
    → (leb low b && leb b high) ≡ true
    → IsLong (lead_of (suc more) 0x80 0xbf (bits * 64 + (b - 0x80)))
unfolding IsLong
next_byte more low high bits b (_, _, h) k = (
  omega arith,
  omega arith,
  inl (elim h [
    | inl two ↦ omega arith
    | inr (_, inl one) ↦ omega arith
    | inr (_, inr high) ↦ ground (arith, k)
  ]),
)

-- A sequence that goes on does not end as ASCII.
decode-IsLong :
    (bytes : Bytes) (more low high bits : ℕ) (s : String)
    → IsLong (lead_of more low high bits)
    → decode (lead_of more low high bits) bytes ≡ some s
    → IsAscii s
    → ⊥
unfolding decode step IsLong IsAscii
decode-IsLong bytes zero low high bits s (h, _, _) e a = omega arith
decode-IsLong [] (suc more) low high bits s h e a = cc
decode-IsLong (b ∷ bytes) (suc zero) low high bits s h e a =
    elim (Bool-cases (leb low b && leb b high)) [
      | inr k ↦ let e' : none ≡ some s = rw (decode, k) at e in cc
      | inl k ↦ last_byte bytes low high bits b s h (rw (decode, k) at e) a
    ]
decode-IsLong (b ∷ bytes) (suc (suc more)) low high bits s h e a =
    elim (Bool-cases (leb low b && leb b high)) [
      | inr k ↦ let e' : none ≡ some s = rw (decode, k) at e in cc
      | inl k ↦
          decode-IsLong bytes (suc more) 0x80 0xbf (bits * 64 + (b - 0x80)) s
            (next_byte more low high bits b h k) (emit-none _ s (rw (decode, k) at e)) a
    ]

-- What is decoded to ASCII is those bytes.
decode-IsAscii : (bytes : Bytes) (s : String) → decode idle bytes ≡ some s → IsAscii s → bytes ≡ s
unfolding decode step IsAscii IsLong LongIfAny
decode-IsAscii [] s e a = cc
decode-IsAscii (b ∷ bytes) s e a = elim (Bool-cases (ltb b 0x80)) [
  | inl k ↦
      let (t, found, same) = emit-some b (decode idle bytes) s (rw (decode, k) at e) in
      let (_, rest) : (b < 0x80) × IsAscii t = subst IsAscii same a in
      ap (λ l. b ∷ l) (decode-IsAscii bytes t found rest) ∙ sym same
  | inr k ↦ begun (lead b) (lead-LongIfAny b) (rw (decode, k) at e)
]
  where
    begun :
        (o : Option Lead)
        → LongIfAny o
        → (elim (first b o) [ none ↦ none | some (c, l) ↦ emit c (decode l bytes) ]) ≡ some s
        → b ∷ bytes ≡ s
    begun none h e = absurd cc
    begun (some l) h e =
        absurd
          (decode-IsLong bytes l.more l.low l.high l.bits s h (emit-none (decode l bytes) s e) a)

pub from_utf8-IsAscii :
    (bytes : Bytes) (s : String) → from_utf8 bytes ≡ some s → All (λ c. c < 0x80) s → bytes ≡ s
unfolding from_utf8 IsAscii
from_utf8-IsAscii bytes s e a = decode-IsAscii bytes s e a

-- ===== src/Base/Utf8.antt =====
-- `str::from_utf8`: the well-formed byte sequences of Unicode (table 3-7) and their code points.
use Prim.Native.Nat.{zero, suc, ℕ, ◌+◌, ◌-◌, ◌*◌, ◌/◌, ◌%◌, ◌≤◌, ◌<◌}
use mathlib.Core.Path.{◌≡◌, refl, ap, ◌∙◌}
use mathlib.Core.Logic.{◌⊎◌, inl, inr}
use mathlib.Core.Bool.{true, false, ◌&&◌}
use mathlib.Core.Option.{Option, none, some}
use mathlib.Core.List.{[], ◌∷◌, ◌++◌}
use native.Mathlib.Omega.{arith}
use may_postgres.Base.Tests.{ltb, leb, ◌==◌, if◌then◌else◌, Bool-cases}
use may_postgres.Base.Chars.{Bytes, Text, utf8_char, as_bytes}

-- What a first byte announces: the bytes to follow, its own bits and the range of the second byte.
pub record Lead : Type 0 where
  pub follow : ℕ
  pub bits : ℕ
  pub low : ℕ
  pub high : ℕ

abbrev announce : ℕ → ℕ → ℕ → ℕ → Option Lead
announce n b l h = some (record { follow = n; bits = b; low = l; high = h })

unfoldable lead : ℕ → Option Lead
lead b =
    if ltb b 0xc2
    then none
    else if ltb b 0xe0
    then announce 0 (b - 0xc0) 0x80 0xbf
    else if b == 0xe0
    then announce 1 0 0xa0 0xbf
    else if b == 0xed
    then announce 1 0x0d 0x80 0x9f
    else if ltb b 0xf0
    then announce 1 (b - 0xe0) 0x80 0xbf
    else if b == 0xf0
    then announce 2 0 0x90 0xbf
    else if ltb b 0xf4
    then announce 2 (b - 0xf0) 0x80 0xbf
    else if b == 0xf4
    then announce 2 4 0x80 0x8f
    else none

abbrev cons_char : ℕ → Option Text → Option Text
cons_char c none = none
cons_char c (some s) = some (c ∷ s)

abbrev on_lead : Option Lead → (Option Lead → Option Text) → Option Text
on_lead none next = none
on_lead (some l) next = next (some l)

-- The state is the sequence under way, if any.
unfoldable utf8_from : Bytes → Option Lead → Option Text
utf8_from [] none = some []
utf8_from [] (some l) = none
utf8_from (b ∷ bs) none = elim (ltb b 0x80) [
  | true ↦ cons_char b (utf8_from bs none)
  | false ↦ on_lead (lead b) (utf8_from bs)
]
utf8_from (b ∷ bs) (some l) = elim (leb l.low b && leb b l.high) [
  | false ↦ none
  | true ↦ elim l.follow [
    | zero ↦ cons_char (l.bits * 64 + (b - 0x80)) (utf8_from bs none)
    | suc n ↦ utf8_from bs (announce n (l.bits * 64 + (b - 0x80)) 0x80 0xbf)
  ]
]

unfoldable pub from_utf8 : Bytes → Option Text
unfolding utf8_from lead
from_utf8 bs = utf8_from bs none

-- A Unicode scalar value: what a `char` holds.
abbrev pub IsScalar : ℕ → Type 0
IsScalar c = (c < 0xd800) ⊎ ((0xe000 ≤ c) × (c < 0x110000))

abbrev pub Scalars : Text → Type 0
Scalars [] = Unit
Scalars (c ∷ cs) = IsScalar c × Scalars cs

last_byte :
    (b bits l h : ℕ) (rest : Bytes)
    → l ≤ b
    → b ≤ h
    → utf8_from (b ∷ rest) (announce 0 bits l h)
      ≡ cons_char (bits * 64 + (b - 0x80)) (utf8_from rest none)
unfolding utf8_from
last_byte b bits l h rest p q = ground arith

inner_byte :
    (n b bits l h : ℕ) (rest : Bytes)
    → l ≤ b
    → b ≤ h
    → utf8_from (b ∷ rest) (announce (suc n) bits l h)
      ≡ utf8_from rest (announce n (bits * 64 + (b - 0x80)) 0x80 0xbf)
unfolding utf8_from
inner_byte n b bits l h rest p q = ground arith

first_byte :
    (b : ℕ) (rest : Bytes)
    → 0x80 ≤ b
    → utf8_from (b ∷ rest) none ≡ on_lead (lead b) (utf8_from rest)
unfolding utf8_from
first_byte b rest p = ground arith

lead_two : (c : ℕ) → 0x80 ≤ c → c < 0x800 → lead (0xc0 + c / 64) ≡ announce 0 (c / 64) 0x80 0xbf
unfolding lead
lead_two c p q = ground arith

-- The announced range holds the second byte.
abbrev Announces : ℕ → ℕ → ℕ → ℕ → Type 0
Announces b n bits second = (l h : ℕ) × (lead b ≡ announce n bits l h) × (l ≤ second) × (second ≤ h)

lead_three :
    (c : ℕ)
    → IsScalar c
    → 0x800 ≤ c
    → c < 0x10000
    → Announces (0xe0 + c / 4096) 1 (c / 4096) (0x80 + c / 64 % 64)
unfolding lead
lead_three c s p q = elim (Bool-cases (c / 4096 == 0)) [
  | inl e ↦ (0xa0, 0xbf, ground arith, ground arith, omega arith)
  | inr e ↦ elim (Bool-cases (c / 4096 == 13)) [
    | inl e2 ↦ (0x80, 0x9f, ground arith, omega arith, ground arith)
    | inr e2 ↦ (0x80, 0xbf, ground arith, omega arith, omega arith)
  ]
]

lead_four :
    (c : ℕ)
    → 0x10000 ≤ c
    → c < 0x110000
    → Announces (0xf0 + c / 262144) 2 (c / 262144) (0x80 + c / 4096 % 64)
unfolding lead
lead_four c p q = elim (Bool-cases (c / 262144 == 0)) [
  | inl e ↦ (0x90, 0xbf, ground arith, ground arith, omega arith)
  | inr e ↦ elim (Bool-cases (c / 262144 == 4)) [
    | inl e2 ↦ (0x80, 0x8f, ground arith, omega arith, ground arith)
    | inr e2 ↦ (0x80, 0xbf, ground arith, omega arith, omega arith)
  ]
]

char_one :
    (c : ℕ) (rest : Bytes)
    → c < 0x80
    → utf8_from (c ∷ rest) none ≡ cons_char c (utf8_from rest none)
unfolding utf8_from
char_one c rest h = ground arith

char_two :
    (c : ℕ) (rest : Bytes)
    → 0x80 ≤ c
    → c < 0x800
    → utf8_from ((0xc0 + c / 64) ∷ (0x80 + c % 64) ∷ rest) none ≡ cons_char c (utf8_from rest none)
char_two c rest p q =
    first_byte (0xc0 + c / 64) ((0x80 + c % 64) ∷ rest) (omega arith)
    ∙ ap (λ o. on_lead o (utf8_from ((0x80 + c % 64) ∷ rest))) (lead_two c p q)
    ∙ last_byte (0x80 + c % 64) (c / 64) 0x80 0xbf rest (omega arith) (omega arith)
    ∙ ap (λ d. cons_char d (utf8_from rest none)) (omega arith)

char_three :
    (c : ℕ) (rest : Bytes)
    → IsScalar c
    → 0x800 ≤ c
    → c < 0x10000
    → utf8_from ((0xe0 + c / 4096) ∷ (0x80 + c / 64 % 64) ∷ (0x80 + c % 64) ∷ rest) none
      ≡ cons_char c (utf8_from rest none)
char_three c rest s p q =
    let (l, h, e, low, high) = lead_three c s p q in
    let last = (0x80 + c % 64) ∷ rest in
    first_byte (0xe0 + c / 4096) ((0x80 + c / 64 % 64) ∷ last) (omega arith)
    ∙ ap (λ o. on_lead o (utf8_from ((0x80 + c / 64 % 64) ∷ last))) e
    ∙ inner_byte 0 (0x80 + c / 64 % 64) (c / 4096) l h last low high
    ∙ last_byte (0x80 + c % 64) (c / 4096 * 64 + (0x80 + c / 64 % 64 - 0x80)) 0x80 0xbf rest
        (omega arith) (omega arith)
    ∙ ap (λ d. cons_char d (utf8_from rest none)) (omega arith)

char_four :
    (c : ℕ) (rest : Bytes)
    → 0x10000 ≤ c
    → c < 0x110000
    → utf8_from
        ((0xf0 + c / 262144)
          ∷ (0x80 + c / 4096 % 64)
          ∷ (0x80 + c / 64 % 64)
          ∷ (0x80 + c % 64)
          ∷ rest)
        none
      ≡ cons_char c (utf8_from rest none)
char_four c rest p q =
    let (l, h, e, low, high) = lead_four c p q in
    let last = (0x80 + c % 64) ∷ rest in
    let third = (0x80 + c / 64 % 64) ∷ last in
    first_byte (0xf0 + c / 262144) ((0x80 + c / 4096 % 64) ∷ third) (omega arith)
    ∙ ap (λ o. on_lead o (utf8_from ((0x80 + c / 4096 % 64) ∷ third))) e
    ∙ inner_byte 1 (0x80 + c / 4096 % 64) (c / 262144) l h third low high
    ∙ inner_byte 0 (0x80 + c / 64 % 64) (c / 262144 * 64 + (0x80 + c / 4096 % 64 - 0x80)) 0x80 0xbf
        last (omega arith) (omega arith)
    ∙ last_byte (0x80 + c % 64)
        ((c / 262144 * 64 + (0x80 + c / 4096 % 64 - 0x80)) * 64 + (0x80 + c / 64 % 64 - 0x80)) 0x80
        0xbf rest (omega arith) (omega arith)
    ∙ ap (λ d. cons_char d (utf8_from rest none)) (omega arith)

below : (c : ℕ) → IsScalar c → c < 0x110000
below c (inl h) = omega arith
below c (inr h) = h.1

char-utf8_char :
    (c : ℕ) (rest : Bytes)
    → IsScalar c
    → utf8_from (utf8_char c ++ rest) none ≡ cons_char c (utf8_from rest none)
unfolding utf8_char
char-utf8_char c rest h =
    ground
      (arith, below c h, char_one c rest, char_two c rest, char_three c rest h, char_four c rest)

utf8_from-as_bytes : (s : Text) → Scalars s → utf8_from (as_bytes s) none ≡ some s
unfolding as_bytes utf8_from
utf8_from-as_bytes [] h = refl
utf8_from-as_bytes (c ∷ cs) h =
    char-utf8_char c (as_bytes cs) h.0 ∙ ap (cons_char c) (utf8_from-as_bytes cs h.1)

-- Decoding the bytes of a text gives the text.
pub from_utf8-as_bytes : (s : Text) → Scalars s → from_utf8 (as_bytes s) ≡ some s
unfolding from_utf8
from_utf8-as_bytes s h = utf8_from-as_bytes s h

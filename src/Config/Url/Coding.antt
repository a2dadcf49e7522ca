-- ===== src/Config/Url/Coding.antt =====
-- Percent coding, of the crate percent_encoding, as an interface for the URLs of src/config.rs, and
-- the bytes of texts.
use may_postgres.Base.{
  ℕ, ◌+◌, ◌/◌, ◌%◌, ◌≤◌, ◌<◌, Bool, false, ◌||◌, [], ◌∷◌, ◌++◌, ◌≡◌, ◌≢◌, refl, sym, ◌∙◌, ◌==◌,
  arith, inl, inr, Bool-cases, Bytes, Text, starts_with, utf8_char, as_bytes, ltb,
}
use may_postgres.Base.Decimal.{Digits}
use may_postgres.Base.Utf8.{IsScalar, Scalars}
use may_postgres.Config.{u16_max}
use may_postgres.Config.Url.Printing.{Without, is_comma}

abbrev pub Octets : Bytes → Type 0
Octets [] = Unit
Octets (b ∷ bs) = (b < 256) × Octets bs

-- The characters that the parser of URLs looks for.
abbrev pub is_delimiter : ℕ → Bool
is_delimiter c =
    c == b'@'
    || c == b':'
    || c == b'/'
    || c == b'?'
    || c == b','
    || c == b'['
    || c == b']'
    || c == b'='
    || c == b'&'

-- `percent_decode` and `utf8_percent_encode` with a set that holds the delimiters.
pub record PercentCoding : Type 0 where
  pub percent_decode : Bytes → Bytes
  pub percent_encode : Bytes → Text
  pub decode_encode : (b : Bytes) → Octets b → percent_decode (as_bytes (percent_encode b)) ≡ b
  pub encode_plain : (b : Bytes) → Octets b → Without is_delimiter (percent_encode b)
  pub encode_nonempty : (b : Bytes) → b ≢ [] → percent_encode b ≢ []

pub record Settings : Type 0 where
  pub user : Text
  pub password : Bytes
  pub host : Text
  pub port : ℕ
  pub dbname : Text

-- Text is made of scalar values, the host is a name, and neither it nor the database is empty.
pub record IsSettings (s : Settings) : Type 0 where
  pub user : Scalars s.user
  pub password : Octets s.password
  pub host : Scalars s.host
  pub host_nonempty : s.host ≢ []
  pub host_name : starts_with b'/' s.host ≡ false
  pub port : s.port ≤ u16_max
  pub dbname : Scalars s.dbname
  pub dbname_nonempty : s.dbname ≢ []

Octets-append : (s t : Bytes) → Octets s → Octets t → Octets (s ++ t)
Octets-append [] t h k = k
Octets-append (b ∷ s) t h k = (h.0, Octets-append s t h.1 k)

below : (c : ℕ) → IsScalar c → c < 0x110000
below c (inl h) = omega arith
below c (inr h) = h.1

utf8_char-Octets : (c : ℕ) → IsScalar c → Octets (utf8_char c)
unfolding utf8_char
utf8_char-Octets c h = elim (Bool-cases (ltb c 0x80)) [
  | inl one ↦ rw one (ground arith, tt)
  | inr more ↦ elim (Bool-cases (ltb c 0x800)) [
    | inl two ↦ rw (more, two) (ground arith, (omega arith, tt))
    | inr more2 ↦ elim (Bool-cases (ltb c 0x10000)) [
      | inl three ↦ rw (more, more2, three) (ground arith, (omega arith, (omega arith, tt)))
      | inr four ↦
          rw (more, more2, four)
            (omega (arith, below c h), (omega arith, (omega arith, (omega arith, tt))))
    ]
  ]
]

-- The first byte of a character is a slash only if the character is.
utf8_char_first :
    (c : ℕ) (rest : Bytes)
    → (b : ℕ) × (bs : Bytes) × (utf8_char c ++ rest ≡ b ∷ bs) × (c ≢ b'/' → b ≢ b'/')
unfolding utf8_char
utf8_char_first c rest = elim (Bool-cases (ltb c 0x80)) [
  | inl one ↦ (c, rest, rw one refl, λ h. h)
  | inr more ↦ elim (Bool-cases (ltb c 0x800)) [
    | inl two ↦ (0xc0 + c / 64, (0x80 + c % 64) ∷ rest, rw (more, two) refl, λ _. omega arith)
    | inr more2 ↦ elim (Bool-cases (ltb c 0x10000)) [
      | inl three ↦ (
        0xe0 + c / 4096,
        (0x80 + c / 64 % 64) ∷ (0x80 + c % 64) ∷ rest,
        rw (more, more2, three) refl,
        λ _. omega arith,
      )
      | inr four ↦ (
        0xf0 + c / 262144,
        (0x80 + c / 4096 % 64) ∷ (0x80 + c / 64 % 64) ∷ (0x80 + c % 64) ∷ rest,
        rw (more, more2, four) refl,
        λ _. omega arith,
      )
    ]
  ]
]

pub as_bytes-Octets : (s : Text) → Scalars s → Octets (as_bytes s)
unfolding as_bytes
as_bytes-Octets [] h = tt
as_bytes-Octets (c ∷ s) h =
    Octets-append (utf8_char c) (as_bytes s) (utf8_char-Octets c h.0) (as_bytes-Octets s h.1)

pub Digits-Scalars : (s : Text) → Digits s → Scalars s
Digits-Scalars [] h = tt
Digits-Scalars (c ∷ s) h = (inl (omega (arith, h.1)), Digits-Scalars s h.2)

pub starts_with-as_bytes :
    (s : Text) → starts_with b'/' s ≡ false → starts_with b'/' (as_bytes s) ≡ false
unfolding starts_with as_bytes
starts_with-as_bytes [] e = refl
starts_with-as_bytes (c ∷ s) e =
    let (b, bs, first, other) = utf8_char_first c (as_bytes s) in
    let different : b ≢ b'/' = other (ground arith) in rw first (ground (arith, different))

pub as_bytes_nonempty : (s : Text) → s ≢ [] → as_bytes s ≢ []
unfolding as_bytes
as_bytes_nonempty [] h e = h refl
as_bytes_nonempty (c ∷ s) h e =
    let (b, bs, first, _) = utf8_char_first c (as_bytes s) in absurd (ground (arith, sym first ∙ e))

pub comma_free : (s : Text) → Digits s → Without is_comma s
comma_free [] h = tt
comma_free (c ∷ s) h = (ground (arith, h.0), comma_free s h.2)

-- ===== src/Copy/Binary/Cursors.antt =====
-- The cursor of the reader of src/binary_copy.rs stays within its chunk.
use may_postgres.Base.{
  ℕ, zero, suc, ◌+◌, ◌≤◌, Bool, List, [], ◌∷◌, ◌≡◌, refl, ap, Option, none, some, ltb,
  if◌then◌else◌, ◌==◌, arith, inl, inr, Bool-cases, ltb→lt, ltb→le, length, take, drop, ◌-◌, Bytes,
  text_eq, err, returns,
}
use may_postgres.Base.Endian.{number_of, i32_as_usize}
use may_postgres.Protocol.{ByteRange}
use may_postgres.Copy.Writer.{magic, magic_len, header_len, minus_one32}
use may_postgres.Copy.Binary.{
  invalid_magic, Cursor, cursor, remaining, rest, check_remaining, advance, get, read_header,
  header_of, range_of, ranges_loop,
}
use may_postgres.Copy.Binary.Steps.{Safe, bind-Safe}

-- A cursor in a chunk.
abbrev pub In : Bytes → Cursor → Type 0
In chunk c = (c.inner ≡ chunk) × (c.position ≤ length chunk)

pub check_remaining-Safe : (c : Cursor) (n : ℕ) → Safe (λ _. n ≤ remaining c) (check_remaining c n)
check_remaining-Safe c n = elim (Bool-cases (ltb (remaining c) n)) [
  | inl short ↦ rw short tt
  | inr enough ↦ rw enough (ltb→le (remaining c) n enough)
]

advance-Safe :
    (chunk : Bytes) (n : ℕ) (c : Cursor)
    → In chunk c
    → n ≤ remaining c
    → Safe (λ d. In chunk d × (d.position ≡ c.position + n)) (advance n c)
advance-Safe chunk n c i h = elim (Bool-cases (ltb (remaining c) n)) [
  | inl short ↦ absurd (omega (arith, ltb→lt (remaining c) n short))
  | inr enough ↦ rw enough ((i.0, omega (arith, ap length i.0)), refl)
]

-- The number in the `n` bytes at a cursor, and the cursor behind them.
abbrev pub Got : Bytes → ℕ → Cursor → ℕ × Cursor → Type 0
Got chunk n c r =
    In chunk r.1
    × (r.1.position ≡ c.position + n)
    × (r.0 ≡ number_of (take n (drop c.position chunk)))

pub get-Safe :
    (chunk : Bytes) (n : ℕ) (c : Cursor)
    → In chunk c
    → n ≤ remaining c
    → Safe (Got chunk n c) (get n c)
get-Safe chunk n c i h = elim (Bool-cases (ltb (remaining c) n)) [
  | inl short ↦ absurd (omega (arith, ltb→lt (remaining c) n short))
  | inr enough ↦ rw enough (
    (i.0, omega (arith, ap length i.0)),
    refl,
    ap (λ b. number_of (take n (drop c.position b))) i.0,
  )
]

abbrev pub InRange : Bytes → Option ByteRange → Type 0
InRange chunk none = Unit
InRange chunk (some r) = (r.start ≤ r.end) × (r.end ≤ length chunk)

abbrev pub Ranges : Bytes → List (Option ByteRange) → Type 0
Ranges chunk [] = Unit
Ranges chunk (r ∷ rs) = InRange chunk r × Ranges chunk rs

range_of-Safe :
    (chunk : Bytes) (len : ℕ) (c : Cursor)
    → In chunk c
    → Safe (λ r. InRange chunk r.0 × In chunk r.1) (range_of len c)
unfolding range_of
range_of-Safe chunk len c i = elim (Bool-cases (len == minus_one32)) [
  | inl null ↦ rw null (tt, i)
  | inr other ↦ rw other (
      bind-Safe (λ _. i32_as_usize len ≤ remaining c) _ (check_remaining c (i32_as_usize len)) _
        (check_remaining-Safe c (i32_as_usize len))
        (λ _ enough.
          bind-Safe (λ d. In chunk d × (d.position ≡ c.position + i32_as_usize len)) _
            (advance (i32_as_usize len) c) _ (advance-Safe chunk (i32_as_usize len) c i enough)
            (λ d h. ((omega arith, omega (arith, h.0.1, h.1)), h.0))))
]

pub ranges_loop-Safe :
    (chunk : Bytes) (k : ℕ) (c : Cursor)
    → In chunk c
    → Safe (λ rs. Ranges chunk rs × (length rs ≡ k)) (ranges_loop k c)
unfolding ranges_loop
ranges_loop-Safe chunk zero c i = (tt, refl)
ranges_loop-Safe chunk (suc k) c i =
    bind-Safe (λ _. 4 ≤ remaining c) _ (check_remaining c 4) _ (check_remaining-Safe c 4)
      (λ _ e. bind-Safe (Got chunk 4 c) _ (get 4 c) _ (get-Safe chunk 4 c i e) (λ r h.
        bind-Safe (λ q. InRange chunk q.0 × In chunk q.1) _ (range_of r.0 r.1) _
          (range_of-Safe chunk r.0 r.1 h.0)
          (λ q g.
            bind-Safe (λ rs. Ranges chunk rs × (length rs ≡ k)) _ (ranges_loop k q.1) _
              (ranges_loop-Safe chunk k q.1 g.1) (λ rs l. ((g.0, l.0), omega (arith, l.1))))))

magic-Safe :
    (chunk : Bytes) (c : Cursor)
    → In chunk c
    → header_len ≤ remaining c
    → Safe
        (λ d. In chunk d × (d.position ≡ c.position + magic_len))
        (if text_eq (take magic_len (rest c)) magic
          then advance magic_len c
          else returns (err invalid_magic))
magic-Safe chunk c i e = elim (Bool-cases (text_eq (take magic_len (rest c)) magic)) [
  | inl same ↦ rw same (advance-Safe chunk magic_len c i (omega (arith, e)))
  | inr other ↦ rw other tt
]

-- Where the number of values stands in a chunk: behind the header and its extension in the first
-- one, and else in front.
abbrev pub values_start : Bytes → Option Bool → ℕ
values_start chunk none = header_len + number_of (take 4 (drop (header_len - 4) chunk))
values_start chunk (some has_oids) = 0

values_start-none :
    (chunk : Bytes) (p1 p2 p3 p4 extension : ℕ)
    → p1 ≡ magic_len
    → p2 ≡ p1 + 4
    → p3 ≡ p2 + 4
    → extension ≡ number_of (take 4 (drop p2 chunk))
    → p4 ≡ p3 + extension
    → p4 ≡ values_start chunk none
values_start-none chunk p1 p2 p3 p4 extension e1 e2 e3 e4 e5 =
    let at_extension : p2 ≡ header_len - 4 = omega (arith, e1, e2) in
    let same = ap (λ p. number_of (take 4 (drop p chunk))) at_extension in
    omega (arith, e1, e2, e3, e4, e5, same)

read_header-Safe :
    (chunk : Bytes)
    → Safe
        (λ r. In chunk r.1 × (r.1.position ≡ values_start chunk none))
        (read_header (cursor chunk 0))
unfolding read_header
read_header-Safe chunk =
    let c = cursor chunk 0 in
    let i : In chunk c = (refl, omega arith) in
    bind-Safe (λ _. header_len ≤ remaining c) _ (check_remaining c header_len) _
      (check_remaining-Safe c header_len)
      (λ _ e.
        bind-Safe (λ d. In chunk d × (d.position ≡ c.position + magic_len)) _ _ _
          (magic-Safe chunk c i e)
          (λ c1 h1.
            bind-Safe (Got chunk 4 c1) _ (get 4 c1) _
              (get-Safe chunk 4 c1 h1.0 (omega (arith, e, h1.1, ap length i.0, ap length h1.0.0)))
              (λ r2 h2.
                bind-Safe (Got chunk 4 r2.1) _ (get 4 r2.1) _
                  (get-Safe chunk 4 r2.1 h2.0
                    (omega (arith, e, h1.1, h2.1, ap length i.0, ap length h2.0.0)))
                  (λ r3 h3.
                    bind-Safe (λ _. r3.0 ≤ remaining r3.1) _ (check_remaining r3.1 r3.0) _
                      (check_remaining-Safe r3.1 r3.0)
                      (λ _ enough.
                        bind-Safe (λ d. In chunk d × (d.position ≡ r3.1.position + r3.0)) _
                          (advance r3.0 r3.1) _ (advance-Safe chunk r3.0 r3.1 h3.0 enough)
                          (λ d h4. (
                            h4.0,
                            values_start-none chunk c1.position r2.1.position r3.1.position
                                d.position r3.0 h1.1 h2.1 h3.1 h3.2 h4.1,
                          )))))))

pub header_of-Safe :
    (chunk : Bytes) (header : Option Bool)
    → Safe
        (λ r. In chunk r.1 × (r.1.position ≡ values_start chunk header))
        (header_of header (cursor chunk 0))
header_of-Safe chunk none = read_header-Safe chunk
header_of-Safe chunk (some has_oids) = ((refl, omega arith), refl)

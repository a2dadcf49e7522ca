-- ===== src/Client/Tag.antt =====
-- The number of rows that src/query.rs reads from a command tag.
use may_postgres.Base.{
  ℕ, ◌+◌, ◌-◌, ◌*◌, ◌^◌, ◌≤◌, List, [], ◌∷◌, ◌++◌, ◌≡◌, refl, ap, ◌∙◌, inl, inr, arith, true, false,
  Bool-cases, ◌==◌, ◌&&◌, leb, some, split, Text,
}
use may_postgres.Base.Number.{digits}
use may_postgres.Base.Decimal.{decimal, digits-decimal, decimal_nonempty, parse_unsigned-digits}
use may_postgres.Client.Query.{last_part, rows_of_tag}

space_no_digit : (c : ℕ) → (leb b'0' c && leb c b'9') ≡ true → (c == b' ') ≡ false
space_no_digit c h = ground arith

-- A text of digits is one part.
split-digits : (w : Text) (k n : ℕ) → digits k w ≡ some n → split b' ' w ≡ w ∷ []
unfolding digits split
split-digits [] k n h = refl
split-digits (c ∷ w) k n h = elim (Bool-cases (leb b'0' c && leb c b'9')) [
  | inl digit ↦
      let rest = split-digits w (k * 10 + (c - b'0')) n (rw digit at h) in
      rw (space_no_digit c digit, rest) refl
  | inr other ↦ absurd (ground arith)
]

-- The parts of a text that ends in a space and `w`: there are two, and the last one is `w`.
record EndsIn (w : Text) (parts : List Text) : Type 0 where
  first : Text
  second : Text
  more : List Text
  parts_are : parts ≡ first ∷ second ∷ more
  last_is : last_part (second ∷ more) ≡ w

split-EndsIn : (t w : Text) → split b' ' w ≡ w ∷ [] → EndsIn w (split b' ' (t ++ b' ' ∷ w))
unfolding split
split-EndsIn [] w h = record {
  first = [];
  second = w;
  more = [];
  parts_are = rw h refl;
  last_is = refl;
}
split-EndsIn (c ∷ t) w h =
    let e = split-EndsIn t w h in
    elim (Bool-cases (c == b' ')) [
      | inl space ↦ record {
        first = [];
        second = e.first;
        more = e.second ∷ e.more;
        parts_are = rw (space, e.parts_are) refl;
        last_is = e.last_is;
      }
      | inr other ↦ record {
        first = c ∷ e.first;
        second = e.second;
        more = e.more;
        parts_are = rw (other, e.parts_are) refl;
        last_is = e.last_is;
      }
    ]

last_part-split : (t w : Text) → split b' ' w ≡ w ∷ [] → last_part (split b' ' (t ++ b' ' ∷ w)) ≡ w
last_part-split t w h = let e = split-EndsIn t w h in ap last_part e.parts_are ∙ e.last_is

-- From a tag that ends in a space and a number of type `u64`, that number is read, whatever stands
-- before it.
pub rows_of_tag-decimal :
    (t : Text) (n : ℕ) → n ≤ 2 ^ 64 - 1 → rows_of_tag (t ++ b' ' ∷ decimal n) ≡ n
unfolding rows_of_tag
rows_of_tag-decimal t n le =
    rw
      (
        last_part-split t (decimal n) (split-digits (decimal n) 0 n (digits-decimal n)),
        parse_unsigned-digits (2 ^ 64 - 1) n (decimal n) (decimal_nonempty n) (digits-decimal n) le,
      )
      refl

-- ===== src/Copy/Binary/Cells.antt =====
-- The bytes of a row in the binary format, and the reader of src/binary_copy.rs on them.
use may_postgres.Base.{
  ℕ, suc, ◌+◌, ◌-◌, ◌≤◌, ◌<◌, ◌^◌, false, List, [], ◌∷◌, ◌++◌, append_assoc, map, ◌≡◌, refl, sym,
  ap, ◌∙◌, Option, none, some, ◌==◌, arith, le→ltb, lt→ltb, length, length-append, length-drop,
  take, drop, drop-drop, drop-prefix, take-prefix, Bytes, ok, returns,
}
use may_postgres.Base.Endian.{be32, number_of, number_of-be32}
use may_postgres.Protocol.{ByteRange}
use may_postgres.Copy.Writer.{minus_one32}
use may_postgres.Copy.Binary.{
  Cursor, cursor, remaining, rest, check_remaining, advance, get, range_of, ranges_loop,
}

-- A null is the length -1, any other value its length and its bytes.
abbrev pub cell_bytes : Option Bytes → Bytes
cell_bytes none = be32 minus_one32
cell_bytes (some bs) = be32 (length bs) ++ bs

abbrev pub cells_bytes : List (Option Bytes) → Bytes
cells_bytes [] = []
cells_bytes (cell ∷ cells) = cell_bytes cell ++ cells_bytes cells

-- The lengths are of type `i32`.
abbrev pub Fits : List (Option Bytes) → Type 0
Fits [] = Unit
Fits (none ∷ cells) = Fits cells
Fits (some bs ∷ cells) = (length bs < 2 ^ 31) × Fits cells

abbrev pub cell_of : Bytes → Option ByteRange → Option Bytes
cell_of buf none = none
cell_of buf (some r) = some (take (r.end - r.start) (drop r.start buf))

-- A cursor before these bytes.
abbrev pub Before : Cursor → Bytes → Bytes → Type 0
Before c bs back = rest c ≡ bs ++ back

abbrev pub past : Cursor → Bytes → Cursor
past c bs = cursor c.inner (c.position + length bs)

room : (c : Cursor) (bs back : Bytes) → Before c bs back → length bs ≤ remaining c
room c bs back e = omega (arith, length-drop c.position c.inner, ap length e, length-append bs back)

pub rest-past : (c : Cursor) (bs back : Bytes) → Before c bs back → rest (past c bs) ≡ back
rest-past c bs back e =
    sym (drop-drop c.position (length bs) c.inner) ∙ ap (drop (length bs)) e ∙ drop-prefix bs back

pub check_remaining-Before :
    (c : Cursor) (bs back : Bytes)
    → Before c bs back
    → check_remaining c (length bs) ≡ returns (ok tt)
check_remaining-Before c bs back e = rw (le→ltb (remaining c) (length bs) (room c bs back e)) refl

pub advance-Before :
    (c : Cursor) (bs back : Bytes)
    → Before c bs back
    → advance (length bs) c ≡ returns (ok (past c bs))
advance-Before c bs back e = rw (le→ltb (remaining c) (length bs) (room c bs back e)) refl

pub get-Before :
    (c : Cursor) (bs back : Bytes)
    → Before c bs back
    → get (length bs) c ≡ returns (ok (number_of bs, past c bs))
get-Before c bs back e =
    rw (le→ltb (remaining c) (length bs) (room c bs back e), e, take-prefix bs back) refl

-- The ranges were read, and they are where the values stand.
pub record Holds (cells : List (Option Bytes)) (c : Cursor) : Type 0 where
  pub ranges : List (Option ByteRange)
  pub read_is : ranges_loop (length cells) c ≡ returns (ok ranges)
  pub cells_are : map (cell_of c.inner) ranges ≡ cells

range_of-null : (c : Cursor) → range_of minus_one32 c ≡ returns (ok (none, c))
unfolding range_of
range_of-null c = refl

range_of-bytes :
    (c : Cursor) (bs back : Bytes)
    → Before c bs back
    → length bs < 2 ^ 31
    → range_of (length bs) c
      ≡ returns (ok (some (record { start = c.position; end = c.position + length bs }), past c bs))
unfolding range_of
range_of-bytes c bs back e small =
    let other : length bs == minus_one32 ≡ false = ground (arith, small) in
    rw
      (
        other,
        lt→ltb (length bs) (2 ^ 31) small,
        le→ltb (remaining c) (length bs) (room c bs back e),
      )
      refl

ranges_loop_step :
    (k len : ℕ) (c c2 : Cursor) (back : Bytes) (r : Option ByteRange) (rs : List (Option ByteRange))
    → Before c (be32 len) back
    → len < 2 ^ 32
    → range_of len (past c (be32 len)) ≡ returns (ok (r, c2))
    → ranges_loop k c2 ≡ returns (ok rs)
    → ranges_loop (suc k) c ≡ returns (ok (r ∷ rs))
unfolding ranges_loop
ranges_loop_step k len c c2 back r rs e small ranged more =
    rw
      (
        check_remaining-Before c (be32 len) back e,
        get-Before c (be32 len) back e,
        number_of-be32 len small,
        ranged,
        more,
      )
      refl

cell_there :
    (d : Cursor) (bs back : Bytes)
    → Before d bs back
    → cell_of d.inner (some (record { start = d.position; end = d.position + length bs })) ≡ some bs
cell_there d bs back e =
    let same : d.position + length bs - d.position ≡ length bs = omega arith in
    rw (same, e, take-prefix bs back) refl

pub ranges_loop-Holds :
    (cells : List (Option Bytes)) (back : Bytes) (c : Cursor)
    → Fits cells
    → Before c (cells_bytes cells) back
    → Holds cells c
ranges_loop-Holds [] back c h e = record {
  ranges = [];
  read_is = unfold ranges_loop in refl;
  cells_are = refl;
}
ranges_loop-Holds (none ∷ cells) back c h e =
    let split = e ∙ append_assoc (be32 minus_one32) (cells_bytes cells) back in
    let d = past c (be32 minus_one32) in
    let more =
      ranges_loop-Holds cells back d h
        (rest-past c (be32 minus_one32) (cells_bytes cells ++ back) split) in
    record {
      ranges = none ∷ more.ranges;
      read_is =
          ranges_loop_step (length cells) minus_one32 c d (cells_bytes cells ++ back) none
            more.ranges split (omega arith) (range_of-null d) more.read_is;
      cells_are = ap (λ l. none ∷ l) more.cells_are;
    }
ranges_loop-Holds (some bs ∷ cells) back c h e =
    let split =
      e
      ∙ append_assoc (be32 (length bs) ++ bs) (cells_bytes cells) back
      ∙ append_assoc (be32 (length bs)) bs (cells_bytes cells ++ back) in
    let d = past c (be32 (length bs)) in
    let at_bytes = rest-past c (be32 (length bs)) (bs ++ (cells_bytes cells ++ back)) split in
    let more =
      ranges_loop-Holds cells back (past d bs) h.1
        (rest-past d bs (cells_bytes cells ++ back) at_bytes) in
    let range : ByteRange = record { start = d.position; end = d.position + length bs } in
    record {
      ranges = some range ∷ more.ranges;
      read_is =
          ranges_loop_step (length cells) (length bs) c (past d bs)
            (bs ++ (cells_bytes cells ++ back)) (some range) more.ranges split (omega (arith, h.0))
            (range_of-bytes d bs (cells_bytes cells ++ back) at_bytes h.0) more.read_is;
      cells_are =
          ap (λ x. x ∷ map (cell_of c.inner) more.ranges)
            (cell_there d bs (cells_bytes cells ++ back) at_bytes)
          ∙ ap (λ l. some bs ∷ l) more.cells_are;
    }

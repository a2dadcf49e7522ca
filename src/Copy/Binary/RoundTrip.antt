-- ===== src/Copy/Binary/RoundTrip.antt =====
-- A row that the writer of src/binary_copy.rs has written is read back.
use may_postgres.Base.{
  ℕ, zero, suc, ◌+◌, ◌-◌, ◌≤◌, ◌<◌, ◌^◌, Bool, true, false, List, [], ◌∷◌, ◌++◌, append_assoc,
  append-nil, map, ◌≡◌, ◌≢◌, refl, sym, ap, ◌∙◌, Option, none, some, ltb, ◌==◌, ==_iff, text_eq,
  text_eq_iff, arith, lt→ltb, length, take, drop, take-prefix, Bytes, Result, ok, err, Run, returns,
}
use may_postgres.Base.Endian.{be16, be32, number_of, i16_as_usize, number_of-be16, number_of-be32}
use may_postgres.Protocol.{ByteRange, copy_data}
use may_postgres.Client.Query.{Replies}
use may_postgres.Copy.Writer.{
  magic, magic_len, minus_one16, Written, null, bytes, Value, write_values,
}
use may_postgres.Copy.Binary.{
  Cursor, cursor, rest, BinaryCopyOutRow, read_header, header_of, ranges_loop, values_of, row_of,
  next, Item,
}
use may_postgres.Copy.Binary.Cells.{
  cell_bytes, cells_bytes, Fits, cell_of, Before, past, rest-past, check_remaining-Before,
  advance-Before, get-Before, Holds, ranges_loop-Holds,
}

abbrev pub row_bytes : List (Option Bytes) → Bytes
row_bytes cells = be16 (length cells) ++ cells_bytes cells

abbrev pub written_of : Option Bytes → Written
written_of none = null
written_of (some bs) = bytes bs

-- The values write these cells for these types.
abbrev pub Writes : List Value → List ℕ → List (Option Bytes) → Type 0
Writes [] [] [] = Unit
Writes (value ∷ values) (ty ∷ types) (cell ∷ cells) =
    (value ty ≡ written_of cell) × Writes values types cells
Writes _ _ _ = ⊥

pub write_values-Writes :
    (i : ℕ) (values : List Value) (types : List ℕ) (cells : List (Option Bytes)) (buf : Bytes)
    → Writes values types cells
    → Fits cells
    → write_values i values types buf ≡ (ok tt, buf ++ cells_bytes cells)
unfolding write_values
write_values-Writes i [] [] [] buf w h = ap (λ b. (ok tt, b)) (sym (append-nil buf))
write_values-Writes i [] [] (_ ∷ _) buf w h = absurd w
write_values-Writes i [] (_ ∷ _) cells buf w h = absurd w
write_values-Writes i (_ ∷ _) [] cells buf w h = absurd w
write_values-Writes i (_ ∷ _) (_ ∷ _) [] buf w h = absurd w
write_values-Writes i (value ∷ values) (ty ∷ types) (none ∷ cells) buf w h =
    rw w.0 (write_values-Writes (suc i) values types cells (buf ++ cell_bytes none) w.1 h)
    ∙ ap (λ b. (ok tt, b)) (append_assoc buf (cell_bytes none) (cells_bytes cells))
write_values-Writes i (value ∷ values) (ty ∷ types) (some bs ∷ cells) buf w h =
    rw (w.0, lt→ltb (length bs) (2 ^ 31) h.0)
      (write_values-Writes (suc i) values types cells (buf ++ cell_bytes (some bs)) w.1 h.1)
    ∙ ap (λ b. (ok tt, b)) (append_assoc buf (cell_bytes (some bs)) (cells_bytes cells))

pub Writes-length :
    (values : List Value) (types : List ℕ) (cells : List (Option Bytes))
    → Writes values types cells
    → (length types ≡ length cells) × (length values ≡ length types)
Writes-length [] [] [] w = (refl, refl)
Writes-length [] [] (_ ∷ _) w = absurd w
Writes-length [] (_ ∷ _) cells w = absurd w
Writes-length (_ ∷ _) [] cells w = absurd w
Writes-length (_ ∷ _) (_ ∷ _) [] w = absurd w
Writes-length (value ∷ values) (ty ∷ types) (cell ∷ cells) w =
    let l = Writes-length values types cells w.1 in (ap suc l.0, ap suc l.1)

-- What the writer has put in front of the first row, and of the later ones.
abbrev pub header_bytes : Bytes
header_bytes = magic ++ (be32 0 ++ be32 0)

abbrev pub opening : Option Bool → Bytes
opening none = header_bytes
opening (some has_oids) = []

same_text : (s : Bytes) → text_eq s s ≡ true
same_text s = (text_eq_iff s s).1 refl

magic_read :
    (c : Cursor) (back : Bytes)
    → Before c magic back
    → text_eq (take magic_len (rest c)) magic ≡ true
magic_read c back e = rw (e, take-prefix magic back) (same_text magic)

read_header-Before :
    (c : Cursor) (back : Bytes)
    → Before c header_bytes back
    → read_header c ≡ returns (ok (false, past c header_bytes))
unfolding read_header may_postgres.Base.Endian.number_from
read_header-Before c back e =
    let c1 = past c magic in
    let e1 = rest-past c magic ((be32 0 ++ be32 0) ++ back) e in
    let c2 = past c1 (be32 0) in
    let e2 = rest-past c1 (be32 0) (be32 0 ++ back) e1 in
    let c3 = past c2 (be32 0) in
    let e3 = rest-past c2 (be32 0) back e2 in
    rw
      (
        check_remaining-Before c header_bytes back e,
        magic_read c ((be32 0 ++ be32 0) ++ back) e,
        advance-Before c magic ((be32 0 ++ be32 0) ++ back) e,
        get-Before c1 (be32 0) (be32 0 ++ back) e1,
        get-Before c2 (be32 0) back e2,
        check_remaining-Before c3 [] back e3,
        advance-Before c3 [] back e3,
      )
      (ap (λ n. returns (ok (false, cursor c.inner n))) (omega arith))

-- The row with these ranges.
abbrev row_with : List ℕ → Cursor → List (Option ByteRange) → BinaryCopyOutRow
row_with types c ranges = record { buf = c.inner; ranges = ranges; types = types }

values_of-small :
    (types : List ℕ) (n : ℕ) (c : Cursor) (ranges : List (Option ByteRange))
    → n < 2 ^ 15
    → length types ≡ n
    → ranges_loop n c ≡ returns (ok ranges)
    → values_of types n c ≡ returns (ok (some (row_with types c ranges)))
values_of-small types n c ranges small same e =
    let equal : n == length types ≡ true = (==_iff n (length types)).1 (sym same) in
    rw (lt→ltb n (2 ^ 15) small, equal, e) refl

row_of-row_bytes :
    (overflow_checks : Bool) (types : List ℕ) (cells : List (Option Bytes)) (back : Bytes)
    (c : Cursor) (held : Holds cells (past c (be16 (length cells))))
    → length types ≡ length cells
    → length cells < 2 ^ 15
    → Before c (be16 (length cells)) (cells_bytes cells ++ back)
    → row_of overflow_checks types false c
      ≡ returns (ok (some (row_with types (past c (be16 (length cells))) held.ranges)))
row_of-row_bytes overflow_checks types cells back c held same small e =
    let n = length cells in
    let more : n == minus_one16 ≡ false = ground (arith, small) in
    rw
      (
        check_remaining-Before c (be16 n) (cells_bytes cells ++ back) e,
        get-Before c (be16 n) (cells_bytes cells ++ back) e,
        number_of-be16 n (omega (arith, small)),
        more,
      )
      (values_of-small types n (past c (be16 n)) held.ranges small same held.read_is)

-- The reader returns a row that holds these cells.
pub record RowRead (cells : List (Option Bytes)) (item : Item) : Type 0 where
  pub row : BinaryCopyOutRow
  pub item_is : item ≡ returns (some (ok row))
  pub cells_are : map (cell_of row.buf) row.ranges ≡ cells

header_of-opening :
    (header : Option Bool) (back : Bytes)
    → header ≢ some true
    → (c : Cursor) × (header_of header (cursor (opening header ++ back) 0)
        ≡ returns (ok (false, c)))
      × (rest c ≡ back)
header_of-opening none back h =
    let c = cursor (header_bytes ++ back) 0 in
    (past c header_bytes, read_header-Before c back refl, rest-past c header_bytes back refl)
header_of-opening (some false) back h = (cursor back 0, refl, refl)
header_of-opening (some true) back h = absurd (h refl)

next-RowRead :
    (overflow_checks : Bool) (header : Option Bool) (types : List ℕ) (cells : List (Option Bytes))
    (more : Replies)
    → header ≢ some true
    → length types ≡ length cells
    → length cells < 2 ^ 15
    → Fits cells
    → RowRead cells
        (next overflow_checks (record {
          stream = ok (copy_data (opening header ++ row_bytes cells)) ∷ more;
          types = types;
          header = header;
        })).0
unfolding next
next-RowRead overflow_checks header types cells more h same small fits =
    let (c, opened, e) = header_of-opening header (row_bytes cells) h in
    let n = be16 (length cells) in
    let e1 : Before c n (cells_bytes cells ++ []) =
      e ∙ ap (λ l. n ++ l) (sym (append-nil (cells_bytes cells))) in
    let held = ranges_loop-Holds cells [] (past c n) fits (rest-past c n _ e1) in
    record {
      row = row_with types (past c n) held.ranges;
      item_is =
          rw (opened, row_of-row_bytes overflow_checks types cells [] c held same small e1) refl;
      cells_are = held.cells_are;
    }

-- The loop of `write_raw` puts a row behind the buffer, and `next` returns a row with the same
-- values from it, also from the first chunk, behind the header. There are fewer than 2 ^ 15 values,
-- each shorter than 2 ^ 31 bytes, and the stream has no object identifiers.
pub next-write_values :
    (overflow_checks : Bool) (header : Option Bool) (values : List Value) (types : List ℕ)
    (cells : List (Option Bytes)) (more : Replies)
    → header ≢ some true
    → Writes values types cells
    → Fits cells
    → length cells < 2 ^ 15
    → (write_values 0 values types (opening header ++ be16 (length types))
        ≡ (ok tt, opening header ++ row_bytes cells))
      × RowRead cells
          (next overflow_checks (record {
            stream = ok (copy_data (opening header ++ row_bytes cells)) ∷ more;
            types = types;
            header = header;
          })).0
next-write_values overflow_checks header values types cells more h writes fits small =
    let same = (Writes-length values types cells writes).0 in
    (
      write_values-Writes 0 values types cells (opening header ++ be16 (length types)) writes fits
          ∙ ap (λ b. (ok tt, b))
              (append_assoc (opening header) (be16 (length types)) (cells_bytes cells)
                ∙ ap (λ n. opening header ++ (be16 n ++ cells_bytes cells)) same),
      next-RowRead overflow_checks header types cells more h same small fits,
    )

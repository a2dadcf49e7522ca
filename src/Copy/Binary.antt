-- ===== src/Copy/Binary.antt =====
-- src/binary_copy.rs: the reader of the binary format of COPY.
pub mod Steps
pub mod Cursors
pub mod Bounds
pub mod Rows
pub mod Cells
pub mod RoundTrip
pub mod Wrote
use may_postgres.Base.{
  ℕ, zero, suc, ◌+◌, ◌-◌, ◌*◌, ◌/◌, ◌%◌, ◌^◌, Bool, true, false, List, [], ◌∷◌, ◌++◌, Option, none,
  some, ltb, ◌==◌, ◌&&◌, if◌then◌else◌, length, take, drop, get_elem?, Bytes, Text, codes, text_eq,
  Result, ok, err, Run, returns, panics, out_of_fuel,
}
use may_postgres.Base.Decimal.{decimal}
use may_postgres.Base.Endian.{be16, be32, number_of, i16_as_usize, i32_as_usize}
use may_postgres.Protocol.{
  IoError, IoErrorKind, invalid_data, invalid_input, unexpected_eof, ByteRange,
}
use may_postgres.Error.{
  Error, Cause, closed_error, encode_error, parse_error, to_sql_error, column_error, from_sql_error,
}
use may_postgres.Config.{Step, ◌>>=◌}
use may_postgres.Client.Query.{Replies}
use may_postgres.Row.{FromSql, of_range}
use may_postgres.Copy.Writer.{magic, magic_len, header_len, minus_one16, minus_one32}
use may_postgres.Copy.{CopyInSink, out_next}

-- `Cursor<Bytes>`
pub record Cursor : Type 0 where
  pub inner : Bytes
  pub position : ℕ

abbrev pub cursor : Bytes → ℕ → Cursor
cursor inner position = record { inner = inner; position = position }

abbrev pub remaining : Cursor → ℕ
remaining c = length c.inner - c.position

abbrev pub rest : Cursor → Bytes
rest c = drop c.position c.inner

abbrev pub parse_failure : IoErrorKind → Text → Error
parse_failure kind text = parse_error (record { kind = kind; text = text })

abbrev pub check_remaining : Cursor → ℕ → Step Unit
check_remaining c len =
    if ltb (remaining c) len
    then returns (err (parse_failure unexpected_eof (codes "unexpected EOF")))
    else returns (ok tt)

-- `advance`, `get_i16`, `get_i32` and `get_u32` panic behind the end.
abbrev pub advance : ℕ → Cursor → Step Cursor
advance n c = if ltb (remaining c) n then panics else returns (ok (cursor c.inner (c.position + n)))

abbrev pub get : ℕ → Cursor → Step (ℕ × Cursor)
get n c =
    if ltb (remaining c) n
    then panics
    else returns (ok (number_of (take n (rest c)), cursor c.inner (c.position + n)))

pub record BinaryCopyOutRow : Type 0 where
  pub buf : Bytes
  pub ranges : List (Option ByteRange)
  pub types : List ℕ

pub record BinaryCopyOutStream : Type 0 where
  pub stream : Replies
  pub types : List ℕ
  pub header : Option Bool

-- `(flags & (1 << 16)) != 0`
abbrev pub has_oids_bit : ℕ → Bool
has_oids_bit flags = flags / 2 ^ 16 % 2 == 1

abbrev pub invalid_magic : Error
invalid_magic = parse_failure invalid_data (codes "invalid magic value")

-- The header of the first chunk: whether there are object identifiers.
unfoldable pub read_header : Cursor → Step (Bool × Cursor)
read_header c = do
  _ ← check_remaining c header_len
  c1 ←
      if text_eq (take magic_len (rest c)) magic
      then advance magic_len c
      else returns (err invalid_magic)
  (flags, c2) ← get 4 c1
  (extension, c3) ← get 4 c2
  _ ← check_remaining c3 extension
  c4 ← advance extension c3
  returns (ok (has_oids_bit flags, c4))

abbrev pub header_of : Option Bool → Cursor → Step (Bool × Cursor)
header_of none c = read_header c
header_of (some has_oids) c = returns (ok (has_oids, c))

unfoldable pub range_of : ℕ → Cursor → Step (Option ByteRange × Cursor)
range_of len c =
    if len == minus_one32
    then returns (ok (none, c))
    else check_remaining c (i32_as_usize len) >>= λ _. advance (i32_as_usize len) c >>= λ c1.
        returns (ok (some (record { start = c.position; end = c.position + i32_as_usize len }), c1))

-- The loop over the values.
unfoldable pub ranges_loop : ℕ → Cursor → Step (List (Option ByteRange))
unfolding range_of
ranges_loop zero c = returns (ok [])
ranges_loop (suc k) c = do
  _ ← check_remaining c 4
  (len, c1) ← get 4 c
  (range, c2) ← range_of len c1
  ranges ← ranges_loop k c2
  returns (ok (range ∷ ranges))

-- `len += 1`. With overflow checks the greatest `i16` panics, without them it wraps.
abbrev pub plus_oid : Bool → Bool → ℕ → Step ℕ
plus_oid overflow_checks false len = returns (ok len)
plus_oid overflow_checks true len =
    if overflow_checks && len == 2 ^ 15 - 1 then panics else returns (ok ((len + 1) % 2 ^ 16))

-- `0..len` of an `i16`.
abbrev pub rounds : ℕ → ℕ
rounds len = if ltb len (2 ^ 15) then len else 0

abbrev pub shown : ℕ → Text
shown len = if ltb len (2 ^ 15) then decimal len else b'-' ∷ decimal (2 ^ 16 - len)

abbrev pub wrong_number : ℕ → ℕ → Error
wrong_number expected len =
    parse_failure invalid_input
      (codes "expected " ++ (decimal expected ++ (codes " values but got " ++ shown len)))

-- The values, when their number is right.
abbrev pub values_of : List ℕ → ℕ → Cursor → Step (Option BinaryCopyOutRow)
values_of types len c =
    if i16_as_usize len == length types
    then (ranges_loop (rounds len) c >>= λ ranges.
        returns (ok (some (record { buf = c.inner; ranges = ranges; types = types }))))
    else returns (err (wrong_number (length types) len))

-- A row, or the end.
abbrev pub row_of : Bool → List ℕ → Bool → Cursor → Step (Option BinaryCopyOutRow)
row_of overflow_checks types has_oids c = do
  _ ← check_remaining c 2
  (len, c1) ← get 2 c
  if len == minus_one16
      then returns (ok none)
      else (plus_oid overflow_checks has_oids len >>= λ n. values_of types n c1)

abbrev pub Item : Type 0
Item = Run (Option (Result Error BinaryCopyOutRow))

abbrev pub item_of : Step (Option BinaryCopyOutRow) → Item
item_of (returns (ok none)) = returns none
item_of (returns (ok (some row))) = returns (some (ok row))
item_of (returns (err e)) = returns (some (err e))
item_of panics = panics
item_of out_of_fuel = out_of_fuel

abbrev pub on_header :
    Bool → BinaryCopyOutStream → Step (Bool × Cursor) → Item × BinaryCopyOutStream
on_header overflow_checks r (returns (ok (has_oids, c))) =
    (item_of (row_of overflow_checks r.types has_oids c), record r { header = some has_oids })
on_header overflow_checks r (returns (err e)) = (returns (some (err e)), r)
on_header overflow_checks r panics = (panics, r)
on_header overflow_checks r out_of_fuel = (out_of_fuel, r)

abbrev pub on_chunk :
    Bool → BinaryCopyOutStream → Option (Result Error Bytes) → Item × BinaryCopyOutStream
on_chunk overflow_checks r (some (ok chunk)) =
    on_header overflow_checks r (header_of r.header (cursor chunk 0))
on_chunk overflow_checks r (some (err e)) = (returns (some (err e)), r)
on_chunk overflow_checks r none = (returns (some (err closed_error)), r)

-- `BinaryCopyOutStream::next`, in a build with overflow checks or without them.
unfoldable pub next : Bool → BinaryCopyOutStream → Item × BinaryCopyOutStream
unfolding read_header ranges_loop
next overflow_checks r =
    let (chunk, replies) = out_next r.stream in
    on_chunk overflow_checks (record r { stream = replies }) chunk

module _ {T : Type 0} (sql : FromSql T) where
  abbrev pub of_type : ℕ → BinaryCopyOutRow → Option ℕ → Run (Result Error T)
  of_type i row none = returns (err (column_error (decimal i)))
  of_type i row (some ty) =
      if sql.accepts ty
      then of_range sql i ty row.buf (get_elem? row.ranges i)
      else returns (err (from_sql_error sql.wrong_type i))

  -- `BinaryCopyOutRow::try_get`
  abbrev pub try_get : ℕ → BinaryCopyOutRow → Run (Result Error T)
  try_get i row = of_type i row (get_elem? row.types i)

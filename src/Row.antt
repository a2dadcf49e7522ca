-- ===== src/Row.antt =====
-- src/row.rs: the columns of a row by index and by name, and the bytes of a value.
pub mod Lookup
pub mod Simple
use may_postgres.Base.{
  ℕ, zero, suc, ◌+◌, ◌-◌, ◌≤◌, Bool, true, false, ◌&&◌, List, [], ◌∷◌, Option, none, some, leb, ltb,
  if◌then◌else◌, length, get_elem?, take, drop, map, Bytes, Text, text_eq, Result, ok, err, Run,
  returns, panics,
}
use may_postgres.Base.Decimal.{decimal}
use may_postgres.Protocol.{ByteRange}
use may_postgres.Error.{Error, Cause, foreign, column_error, from_sql_error}
use may_postgres.Client.Query.{Column, Row}

abbrev pub next_index : Option ℕ → Option ℕ
next_index none = none
next_index (some i) = some (suc i)

-- `position` of an iterator
unfoldable pub position : (Text → Bool) → List Text → Option ℕ
position f [] = none
position f (name ∷ names) =
    let later = next_index (position f names) in if f name then some 0 else later

-- `eq_ignore_ascii_case`
abbrev pub to_lower : ℕ → ℕ
to_lower c = if leb b'A' c && leb c b'Z' then c + 32 else c

abbrev pub eq_ignore_case : Text → Text → Bool
eq_ignore_case a b = text_eq (map to_lower a) (map to_lower b)

abbrev pub or_position : Option ℕ → Option ℕ → Option ℕ
or_position (some i) other = some i
or_position none other = other

-- `RowIndex` for `str`
unfoldable pub index_of_name : Text → List Text → Option ℕ
index_of_name name names =
    or_position (position (λ d. text_eq d name) names) (position (λ d. eq_ignore_case d name) names)

-- `RowIndex` for `usize`
unfoldable pub index_of_number : ℕ → List Text → Option ℕ
index_of_number i names = if leb (length names) i then none else some i

-- `FromSql` of the type that is asked for.
pub record FromSql (T : Type 0) : Type 0 where
  pub accepts : ℕ → Bool
  pub wrong_type : Cause
  pub from_sql_nullable : ℕ → Option Bytes → Result Cause T

-- `&self.body.buffer()[r]`
abbrev pub slice : Bytes → ByteRange → Run Bytes
slice buffer r =
    if leb r.start r.end && leb r.end (length buffer)
    then returns (take (r.end - r.start) (drop r.start buffer))
    else panics

abbrev pub converted : {T : Type 0} → ℕ → Result Cause T → Result Error T
converted i (ok value) = ok value
converted i (err e) = err (from_sql_error e i)

module _ {T : Type 0} (sql : FromSql T) where
  abbrev pub of_bytes : ℕ → ℕ → Run Bytes → Run (Result Error T)
  of_bytes i ty (returns bytes) = returns (converted i (sql.from_sql_nullable ty (some bytes)))
  of_bytes i ty _ = panics

  -- `self.ranges[idx]`, which may be out of bounds.
  abbrev pub of_range : ℕ → ℕ → Bytes → Option (Option ByteRange) → Run (Result Error T)
  of_range i ty buffer none = panics
  of_range i ty buffer (some none) = returns (converted i (sql.from_sql_nullable ty none))
  of_range i ty buffer (some (some r)) = of_bytes i ty (slice buffer r)

  abbrev pub of_column : Row → ℕ → Option Column → Run (Result Error T)
  of_column row i none = panics
  of_column row i (some column) =
      if sql.accepts column.type_
      then of_range i column.type_ row.body.buffer (get_elem? row.ranges i)
      else returns (err (from_sql_error sql.wrong_type i))

  abbrev pub of_index : Row → Text → Option ℕ → Run (Result Error T)
  of_index row shown none = returns (err (column_error shown))
  of_index row shown (some i) = of_column row i (get_elem? row.statement.columns i)

  -- `get_inner`, which is `try_get`, with a name.
  unfoldable pub get_by_name : Text → Row → Run (Result Error T)
  get_by_name name row =
      of_index row name (index_of_name name (map (λ c. c.name) row.statement.columns))

  -- The same with a number.
  unfoldable pub get_by_number : ℕ → Row → Run (Result Error T)
  get_by_number i row =
      of_index row (decimal i) (index_of_number i (map (λ c. c.name) row.statement.columns))

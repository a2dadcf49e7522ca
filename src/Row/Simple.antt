-- ===== src/Row/Simple.antt =====
-- src/row.rs: values of a row of a simple query.
use may_postgres.Base.{
  ℕ, Option, none, some, get_elem?, Bytes, Text, Result, err, Run, returns, panics,
}
use may_postgres.Base.Decimal.{decimal}
use may_postgres.Protocol.{ByteRange}
use may_postgres.Error.{Error, column_error}
use may_postgres.Client.Simple.{SimpleQueryRow}
use may_postgres.Row.{FromSql, converted, slice, index_of_name, index_of_number}

-- The number of `Type::TEXT`.
abbrev pub text_type : ℕ
text_type = 25

module _ {T : Type 0} (sql : FromSql T) where
  abbrev pub text_of : ℕ → Run Bytes → Run (Result Error T)
  text_of i (returns bytes) = returns (converted i (sql.from_sql_nullable text_type (some bytes)))
  text_of i _ = panics

  -- `self.ranges[idx]`, which may be out of bounds.
  abbrev pub of_simple_range : ℕ → Bytes → Option (Option ByteRange) → Run (Result Error T)
  of_simple_range i buffer none = panics
  of_simple_range i buffer (some none) =
      returns (converted i (sql.from_sql_nullable text_type none))
  of_simple_range i buffer (some (some r)) = text_of i (slice buffer r)

  abbrev pub of_simple_index : SimpleQueryRow → Text → Option ℕ → Run (Result Error T)
  of_simple_index row shown none = returns (err (column_error shown))
  of_simple_index row shown (some i) = of_simple_range i row.body.buffer (get_elem? row.ranges i)

  -- `get_inner`, which is `try_get`, with a name and with a number.
  unfoldable pub simple_by_name : Text → SimpleQueryRow → Run (Result Error T)
  simple_by_name name row = of_simple_index row name (index_of_name name row.columns)

  unfoldable pub simple_by_number : ℕ → SimpleQueryRow → Run (Result Error T)
  simple_by_number i row = of_simple_index row (decimal i) (index_of_number i row.columns)

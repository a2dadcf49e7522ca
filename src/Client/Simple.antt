-- ===== src/Client/Simple.antt =====
-- src/simple_query.rs: the stream of a simple query's results, and `SimpleQueryRow` of src/row.rs.
pub mod Framing
use may_postgres.Base.{
  ℕ, zero, suc, List, [], ◌∷◌, map, Option, none, some, length, Text, Result, ok, err, ◌>>=◌,
  map_err, Run, returns, panics, out_of_fuel,
}
use may_postgres.Protocol.{
  IoError, ByteRange, DataRowBody, Message, command_complete, data_row, empty_query_response,
  ready_for_query, row_description,
}
use may_postgres.Error.{Error, closed_error, parse_error, unexpected_message_error}
use may_postgres.Client.Query.{Replies, collect_items, rows_of_tag}

pub record SimpleQueryRow : Type 0 where
  pub columns : List Text
  pub body : DataRowBody
  pub ranges : List (Option ByteRange)

pub data SimpleQueryMessage : Type 0 where
  row : SimpleQueryRow → SimpleQueryMessage
  command_done : ℕ → SimpleQueryMessage

-- `SimpleQueryRow::new`, when the columns are known.
abbrev pub row_message : Option (List Text) → DataRowBody → Result Error SimpleQueryMessage
row_message none body = err unexpected_message_error
row_message (some columns) body = do
  ranges ← map_err parse_error (collect_items body.ranges)
  ok (row (record { columns = columns; body = body; ranges = ranges }))

abbrev pub Step : Type 0
Step = Option (Result Error SimpleQueryMessage) × (Option (List Text) × Replies)

-- The arm of `RowDescription`, and the rest of the loop.
abbrev pub on_columns :
    Option (List Text)
    → Replies
    → (Option (List Text) → Step)
    → Result IoError (List (Text × ℕ))
    → Step
on_columns columns replies continue (ok fields) = continue (some (map (λ f. f.0) fields))
on_columns columns replies continue (err e) = (some (err (parse_error e)), (columns, replies))

-- `SimpleQueryStream::next`
unfoldable pub simple_next : Replies → Option (List Text) → Step
simple_next [] columns = (some (err closed_error), (columns, []))
simple_next (err e ∷ replies) columns = (some (err e), (columns, replies))
simple_next (ok (command_complete tag) ∷ replies) columns =
    (some (map_err parse_error tag >>= λ t. ok (command_done (rows_of_tag t))), (columns, replies))
simple_next (ok empty_query_response ∷ replies) columns =
    (some (ok (command_done zero)), (columns, replies))
simple_next (ok (row_description fields) ∷ replies) columns =
    on_columns columns replies (simple_next replies) (collect_items fields)
simple_next (ok (data_row body) ∷ replies) columns =
    (some (row_message columns body), (columns, replies))
simple_next (ok ready_for_query ∷ replies) columns = (none, (columns, replies))
simple_next (ok _ ∷ replies) columns = (some (err unexpected_message_error), (columns, replies))

abbrev pub Messages : Type 0
Messages = Run (Result Error (List SimpleQueryMessage))

abbrev pub cons_message : SimpleQueryMessage → Messages → Messages
cons_message m (returns (ok ms)) = returns (ok (m ∷ ms))
cons_message m (returns (err e)) = returns (err e)
cons_message m panics = panics
cons_message m out_of_fuel = out_of_fuel

-- `collect` into a `Result`: one round.
abbrev pub on_step : Step → (Replies → Option (List Text) → Messages) → Messages
on_step (none, _) continue = returns (ok [])
on_step (some (err e), _) continue = returns (err e)
on_step (some (ok m), (columns, replies)) continue = cons_message m (continue replies columns)

unfoldable pub collect_messages : ℕ → Replies → Option (List Text) → Messages
collect_messages zero replies columns = out_of_fuel
collect_messages (suc fuel) replies columns =
    on_step (simple_next replies columns) (collect_messages fuel)

-- `Client::simple_query`, behind the request
abbrev pub simple_query : Replies → Messages
simple_query replies = collect_messages (suc (length replies)) replies none

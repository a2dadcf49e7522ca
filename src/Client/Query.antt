-- ===== src/Client/Query.antt =====
-- src/query.rs, src/simple_query.rs and src/client.rs: what the queries make of the replies to them.
use may_postgres.Base.{
  ℕ, zero, suc, ◌-◌, ◌^◌, List, [], ◌∷◌, Option, none, some, length, Text, split, Result, ok, err,
  ◌>>=◌, map_err, Run, returns, panics, out_of_fuel,
}
use may_postgres.Base.Number.{parse_unsigned}
use may_postgres.Protocol.{
  IoError, Items, finished, item, failed, ByteRange, DataRowBody, Message, bind_complete,
  command_complete, data_row, empty_query_response, error_response, portal_suspended,
  ready_for_query, row_description,
}
use may_postgres.Error.{
  Error, closed_error, parse_error, db_failure, unexpected_message_error, row_count_error,
}

-- What the calls of `Responses::next` return, one after the other; behind the last one the channel
-- is closed.
abbrev pub Replies : Type 0
Replies = List (Result Error Message)

abbrev pub next_reply : Replies → Result Error Message × Replies
next_reply [] = (err closed_error, [])
next_reply (reply ∷ replies) = (reply, replies)

-- The type of a column is its number.
pub record Column : Type 0 where
  pub name : Text
  pub type_ : ℕ

pub record Statement : Type 0 where
  pub name : Text
  pub params : List ℕ
  pub columns : List Column

pub record Row : Type 0 where
  pub statement : Statement
  pub body : DataRowBody
  pub ranges : List (Option ByteRange)

-- `collect` of a `FallibleIterator`
abbrev pub collect_items : {A : Type 0} → Items A → Result IoError (List A)
collect_items finished = ok []
collect_items (item a items) = collect_items items >>= λ more. ok (a ∷ more)
collect_items (failed e) = err e

-- `Row::new`
unfoldable pub row_new : Statement → DataRowBody → Result Error Row
row_new statement body = do
  ranges ← map_err parse_error (collect_items body.ranges)
  ok (record { statement = statement; body = body; ranges = ranges })

-- `RowStream::next`
unfoldable pub row_next : Statement → Replies → Option (Result Error Row) × Replies
row_next statement [] = (some (err closed_error), [])
row_next statement (err e ∷ replies) = (some (err e), replies)
row_next statement (ok (data_row body) ∷ replies) = (some (row_new statement body), replies)
row_next statement (ok empty_query_response ∷ replies) = (none, replies)
row_next statement (ok (command_complete _) ∷ replies) = (none, replies)
row_next statement (ok portal_suspended ∷ replies) = (none, replies)
row_next statement (ok (error_response body) ∷ replies) = (some (err (db_failure body)), replies)
row_next statement (ok bind_complete ∷ replies) = row_next statement replies
row_next statement (ok _ ∷ replies) = (some (err unexpected_message_error), replies)

abbrev pub cons_row : Row → Run (Result Error (List Row)) → Run (Result Error (List Row))
cons_row row (returns (ok rows)) = returns (ok (row ∷ rows))
cons_row row (returns (err e)) = returns (err e)
cons_row row panics = panics
cons_row row out_of_fuel = out_of_fuel

-- `collect` into a `Result`: one round.
abbrev pub on_row :
    Option (Result Error Row) × Replies
    → (Replies → Run (Result Error (List Row)))
    → Run (Result Error (List Row))
on_row (none, replies) continue = returns (ok [])
on_row (some (err e), replies) continue = returns (err e)
on_row (some (ok row), replies) continue = cons_row row (continue replies)

unfoldable pub collect_rows : ℕ → Statement → Replies → Run (Result Error (List Row))
collect_rows zero statement replies = out_of_fuel
collect_rows (suc fuel) statement replies =
    on_row (row_next statement replies) (collect_rows fuel statement)

-- `Client::query`, behind the request
abbrev pub query : Statement → Replies → Run (Result Error (List Row))
query statement replies = collect_rows (suc (length replies)) statement replies

-- `if stream.next().transpose()?.is_some() { return Err(Error::row_count()) }`
abbrev pub no_second : {A : Type 0} → Option (Result Error Row) → A → Result Error A
no_second none a = ok a
no_second (some (ok _)) a = err row_count_error
no_second (some (err e)) a = err e

abbrev pub only_row : Statement → Option (Result Error Row) × Replies → Result Error Row
only_row statement (none, replies) = err row_count_error
only_row statement (some (err e), replies) = err e
only_row statement (some (ok row), replies) = no_second (row_next statement replies).0 row

-- `Client::query_one`
unfoldable pub query_one : Statement → Replies → Result Error Row
query_one statement replies = only_row statement (row_next statement replies)

abbrev pub only_row_opt :
    Statement → Option (Result Error Row) × Replies → Result Error (Option Row)
only_row_opt statement (none, replies) = ok none
only_row_opt statement (some (err e), replies) = err e
only_row_opt statement (some (ok row), replies) =
    no_second (row_next statement replies).0 (some row)

-- `Client::query_opt`
unfoldable pub query_opt : Statement → Replies → Result Error (Option Row)
query_opt statement replies = only_row_opt statement (row_next statement replies)

-- `rsplit(' ').next().unwrap()`: the part behind the last space.
abbrev pub last_part : List Text → Text
last_part [] = []
last_part (part ∷ []) = part
last_part (_ ∷ part ∷ parts) = last_part (part ∷ parts)

abbrev or_zero : Option ℕ → ℕ
or_zero none = zero
or_zero (some n) = n

-- The number of rows of a command tag: `parse().unwrap_or(0)` of its last word.
unfoldable pub rows_of_tag : Text → ℕ
rows_of_tag tag = or_zero (parse_unsigned (2 ^ 64 - 1) (last_part (split b' ' tag)))

-- The loop of `query::execute`.
unfoldable pub execute : Replies → Result Error ℕ
execute [] = err closed_error
execute (err e ∷ replies) = err e
execute (ok bind_complete ∷ replies) = execute replies
execute (ok (data_row _) ∷ replies) = execute replies
execute (ok (command_complete tag) ∷ replies) = do t ← map_err parse_error tag; ok (rows_of_tag t)
execute (ok empty_query_response ∷ replies) = ok zero
execute (ok _ ∷ replies) = err unexpected_message_error

-- The loop of `simple_query::batch_execute`.
unfoldable pub batch_execute : Replies → Result Error Unit
batch_execute [] = err closed_error
batch_execute (err e ∷ replies) = err e
batch_execute (ok ready_for_query ∷ replies) = ok tt
batch_execute (ok (command_complete _) ∷ replies) = batch_execute replies
batch_execute (ok empty_query_response ∷ replies) = batch_execute replies
batch_execute (ok (row_description _) ∷ replies) = batch_execute replies
batch_execute (ok (data_row _) ∷ replies) = batch_execute replies
batch_execute (ok _ ∷ replies) = err unexpected_message_error

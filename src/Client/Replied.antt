-- ===== src/Client/Replied.antt =====
-- What the queries of src/query.rs return for the replies that a server gives to a query.
use may_postgres.Base.{
  map, ◌∙◌, ℕ, zero, suc, ◌≤◌, ◌<◌, List, [], ◌∷◌, ◌++◌, ◌≡◌, refl, arith, Option, none, some,
  length, Text, Result, ok, err, ◌>>=◌, Run, returns, panics, out_of_fuel,
}
use may_postgres.Protocol.{
  IoError, DataRowBody, Message, bind_complete, command_complete, data_row, empty_query_response,
  row_description, ready_for_query,
}
use may_postgres.Error.{Error, closed_error}
use may_postgres.Client.Query.{
  Replies, Statement, Row, row_new, row_next, on_row, cons_row, collect_rows, query, rows_of_tag,
  execute, batch_execute,
}

pub row_next_shorter :
    (statement : Statement) (r : Result Error Message) (replies : Replies)
    → length (row_next statement (r ∷ replies)).1 ≤ length replies
unfolding row_next
row_next_shorter statement (err e) replies = omega arith
row_next_shorter statement (ok bind_complete) [] = omega arith
row_next_shorter statement (ok bind_complete) (r ∷ replies) =
    let l = row_next_shorter statement r replies in omega (arith, l)
row_next_shorter statement (ok _) replies = omega arith

abbrev pub Returns : Run (Result Error (List Row)) → Type 0
Returns run = (r : Result Error (List Row)) × (run ≡ returns r)

cons_row-Returns :
    (row : Row) (run : Run (Result Error (List Row))) → Returns run → Returns (cons_row row run)
cons_row-Returns row (returns (ok rows)) h = (_, refl)
cons_row-Returns row (returns (err e)) h = (_, refl)
cons_row-Returns row panics h = absurd (ground arith)
cons_row-Returns row out_of_fuel h = absurd (ground arith)

on_row-Returns :
    (o : Option (Result Error Row) × Replies) (continue : Replies → Run (Result Error (List Row)))
    → Returns (continue o.1)
    → Returns (on_row o continue)
on_row-Returns (none, replies) continue h = (_, refl)
on_row-Returns (some (err e), replies) continue h = (_, refl)
on_row-Returns (some (ok row), replies) continue h = cons_row-Returns row (continue replies) h

collect_rows-Returns :
    (fuel : ℕ) (statement : Statement) (replies : Replies)
    → length replies < fuel
    → Returns (collect_rows fuel statement replies)
unfolding collect_rows row_next
collect_rows-Returns zero statement replies enough = absurd (omega arith)
collect_rows-Returns (suc fuel) statement [] enough = (err closed_error, refl)
collect_rows-Returns (suc fuel) statement (r ∷ replies) enough =
    let l = row_next_shorter statement r replies in
    on_row-Returns (row_next statement (r ∷ replies)) (collect_rows fuel statement)
      (collect_rows-Returns fuel statement _ (omega (arith, l)))

-- `query` returns on all replies: it does not panic, and its loop ends.
pub query-Returns : (statement : Statement) (replies : Replies) → Returns (query statement replies)
query-Returns statement replies =
    collect_rows-Returns (suc (length replies)) statement replies (omega arith)

abbrev pub data_rows : List DataRowBody → Replies
data_rows [] = []
data_rows (body ∷ bodies) = ok (data_row body) ∷ data_rows bodies

-- All rows, or the first error of one.
abbrev pub rows_of : Statement → List DataRowBody → Result Error (List Row)
rows_of statement [] = ok []
rows_of statement (body ∷ bodies) = do
  row ← row_new statement body
  rows ← rows_of statement bodies
  ok (row ∷ rows)

-- What the server sends: the parameters are bound, rows, the end.
abbrev pub reply_with : List DataRowBody → Result Error Message → Replies → Replies
reply_with bodies last rest = ok bind_complete ∷ (data_rows bodies ++ last ∷ rest)

cons_row-returns :
    (row : Row) (r : Result Error (List Row))
    → cons_row row (returns r) ≡ returns (r >>= λ rows. ok (row ∷ rows))
cons_row-returns row (ok rows) = refl
cons_row-returns row (err e) = refl

collect-row :
    (statement : Statement) (bodies : List DataRowBody) (r : Result Error Row) (replies : Replies)
    (continue : Replies → Run (Result Error (List Row)))
    → continue replies ≡ returns (rows_of statement bodies)
    → on_row (some r, replies) continue
      ≡ returns (r >>= λ row. rows_of statement bodies >>= λ rows. ok (row ∷ rows))
collect-row statement bodies (err e) replies continue h = refl
collect-row statement bodies (ok row) replies continue h =
    rw h (cons_row-returns row (rows_of statement bodies))

collect_rows-replies :
    (fuel : ℕ) (statement : Statement) (bodies : List DataRowBody) (tag : Result IoError Text)
    (rest : Replies)
    → length bodies < fuel
    → collect_rows fuel statement (data_rows bodies ++ ok (command_complete tag) ∷ rest)
      ≡ returns (rows_of statement bodies)
unfolding collect_rows row_next
collect_rows-replies zero statement bodies tag rest enough = absurd (omega arith)
collect_rows-replies (suc fuel) statement [] tag rest enough = refl
collect_rows-replies (suc fuel) statement (body ∷ bodies) tag rest enough =
    collect-row statement bodies (row_new statement body) _ (collect_rows fuel statement)
      (collect_rows-replies fuel statement bodies tag rest (omega arith))

length-data_rows :
    (bodies : List DataRowBody) (more : Replies) → length bodies ≤ length (data_rows bodies ++ more)
length-data_rows [] more = omega arith
length-data_rows (body ∷ bodies) more = let l = length-data_rows bodies more in omega (arith, l)

execute_rows :
    (bodies : List DataRowBody) (last : Result Error Message) (rest : Replies)
    → execute (data_rows bodies ++ last ∷ rest) ≡ execute (last ∷ rest)
unfolding execute
execute_rows [] last rest = refl
execute_rows (body ∷ bodies) last rest = execute_rows bodies last rest

pub query-reply_with :
    (statement : Statement) (bodies : List DataRowBody) (tag : Text) (rest : Replies)
    → (query statement (reply_with bodies (ok (command_complete (ok tag))) rest)
        ≡ returns (rows_of statement bodies))
      × (execute (reply_with bodies (ok (command_complete (ok tag))) rest) ≡ ok (rows_of_tag tag))
unfolding collect_rows row_next execute
query-reply_with statement bodies tag rest =
    let l = length-data_rows bodies (ok (command_complete (ok tag)) ∷ rest) in
    (
      collect_rows-replies (suc (length (reply_with bodies (ok (command_complete (ok tag))) rest)))
          statement bodies (ok tag) rest (omega (arith, l)),
      execute_rows bodies (ok (command_complete (ok tag))) rest,
    )

-- The messages that `batch_execute` passes over.
abbrev pub IsPassed : Message → Type 0
IsPassed (command_complete _) = Unit
IsPassed empty_query_response = Unit
IsPassed (row_description _) = Unit
IsPassed (data_row _) = Unit
IsPassed _ = ⊥

abbrev pub AllPassed : List Message → Type 0
AllPassed [] = Unit
AllPassed (m ∷ ms) = IsPassed m × AllPassed ms

skip_one :
    (m : Message) (replies : Replies)
    → IsPassed m
    → batch_execute (ok m ∷ replies) ≡ batch_execute replies
unfolding batch_execute
skip_one (command_complete _) replies h = refl
skip_one empty_query_response replies h = refl
skip_one (row_description _) replies h = refl
skip_one (data_row _) replies h = refl
skip_one _ replies h = absurd h

skip_many :
    (ms : List Message) (replies : Replies)
    → AllPassed ms
    → batch_execute (map ok ms ++ replies) ≡ batch_execute replies
skip_many [] replies h = refl
skip_many (m ∷ ms) replies h = skip_one m (map ok ms ++ replies) h.0 ∙ skip_many ms replies h.1

-- Behind any number of results, rows and their descriptions, `batch_execute` succeeds at
-- `ReadyForQuery`, returns an error reply, and says so when the connection is closed before.
pub batch_execute_ends :
    (ms : List Message) (e : Error) (rest : Replies)
    → AllPassed ms
    → (batch_execute (map ok ms ++ ok ready_for_query ∷ rest) ≡ ok tt)
      × (batch_execute (map ok ms ++ err e ∷ rest) ≡ err e)
      × (batch_execute (map ok ms ++ []) ≡ err closed_error)
unfolding batch_execute
batch_execute_ends ms e rest h =
    (skip_many ms (ok ready_for_query ∷ rest) h, skip_many ms (err e ∷ rest) h, skip_many ms [] h)

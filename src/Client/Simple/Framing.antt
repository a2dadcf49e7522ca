-- ===== src/Client/Simple/Framing.antt =====
-- What `simple_query` of src/client.rs returns for a sequence of statements.
use may_postgres.Base.{
  ℕ, zero, suc, ◌+◌, ◌≤◌, List, [], ◌∷◌, ◌++◌, ◌≡◌, refl, ap, arith, map, Option, none, some,
  length, length-append, Text, Result, ok, err, ◌>>=◌, returns,
}
use may_postgres.Protocol.{
  Items, finished, item, DataRowBody, command_complete, empty_query_response, ready_for_query,
  row_description,
}
use may_postgres.Error.{Error}
use may_postgres.Client.Query.{Replies, collect_items, rows_of_tag}
use may_postgres.Client.Simple.{
  SimpleQueryMessage, command_done, row_message, Messages, cons_message, on_step, simple_next,
  collect_messages, simple_query,
}
use may_postgres.Client.Replied.{data_rows}

abbrev pub items_of : {A : Type 0} → List A → Items A
items_of [] = finished
items_of (x ∷ xs) = item x (items_of xs)

collect_items-items_of : {A : Type 0} (xs : List A) → collect_items (items_of xs) ≡ ok xs
collect_items-items_of [] = refl
collect_items-items_of (x ∷ xs) = rw (collect_items-items_of xs) refl

-- The answer to one statement: columns, rows and a tag; only a tag, when the statement returns no
-- rows; or that the query is empty.
pub data Answer : Type 0 where
  row_set : List (Text × ℕ) → List DataRowBody → Text → Answer
  command : Text → Answer
  empty_query : Answer

abbrev pub replies_of : List Answer → Replies → Replies
replies_of [] rest = ok ready_for_query ∷ rest
replies_of (row_set fields bodies tag ∷ answers) rest =
    ok (row_description (items_of fields))
    ∷ (data_rows bodies ++ ok (command_complete (ok tag)) ∷ replies_of answers rest)
replies_of (command tag ∷ answers) rest = ok (command_complete (ok tag)) ∷ replies_of answers rest
replies_of (empty_query ∷ answers) rest = ok empty_query_response ∷ replies_of answers rest

-- The rows, or the first error of one, before other messages.
abbrev pub with_rows :
    List Text
    → List DataRowBody
    → Result Error (List SimpleQueryMessage)
    → Result Error (List SimpleQueryMessage)
with_rows columns [] rest = rest
with_rows columns (body ∷ bodies) rest =
    row_message (some columns) body >>= λ m. with_rows columns bodies rest >>= λ ms. ok (m ∷ ms)

abbrev pub messages_of : List Answer → Result Error (List SimpleQueryMessage)
messages_of [] = ok []
messages_of (row_set fields bodies tag ∷ answers) =
    with_rows (map (λ f. f.0) fields) bodies
      (messages_of answers >>= λ ms. ok (command_done (rows_of_tag tag) ∷ ms))
messages_of (command tag ∷ answers) =
    messages_of answers >>= λ ms. ok (command_done (rows_of_tag tag) ∷ ms)
messages_of (empty_query ∷ answers) = messages_of answers >>= λ ms. ok (command_done 0 ∷ ms)

cons_message-returns :
    (m : SimpleQueryMessage) (r : Result Error (List SimpleQueryMessage))
    → cons_message m (returns r) ≡ returns (r >>= λ ms. ok (m ∷ ms))
cons_message-returns m (ok ms) = refl
cons_message-returns m (err e) = refl

-- One message, then what is collected behind it.
on_step-message :
    (r : Result Error SimpleQueryMessage) (columns : Option (List Text)) (replies : Replies)
    (continue : Replies → Option (List Text) → Messages)
    (rest : Result Error (List SimpleQueryMessage))
    → continue replies columns ≡ returns rest
    → on_step (some r, (columns, replies)) continue
      ≡ returns (r >>= λ m. rest >>= λ ms. ok (m ∷ ms))
on_step-message (ok m) columns replies continue rest h = rw h (cons_message-returns m rest)
on_step-message (err e) columns replies continue rest h = refl

collect-rows :
    (fuel : ℕ) (columns : List Text) (bodies : List DataRowBody) (replies : Replies)
    (rest : Result Error (List SimpleQueryMessage))
    → ((left : ℕ)
        → fuel ≤ left + length bodies
        → collect_messages left replies (some columns) ≡ returns rest)
    → length bodies ≤ fuel
    → collect_messages fuel (data_rows bodies ++ replies) (some columns)
      ≡ returns (with_rows columns bodies rest)
unfolding collect_messages simple_next
collect-rows fuel columns [] replies rest h enough = h fuel (omega arith)
collect-rows zero columns (body ∷ bodies) replies rest h enough = absurd (omega arith)
collect-rows (suc fuel) columns (body ∷ bodies) replies rest h enough =
    on_step-message (row_message (some columns) body) (some columns) (data_rows bodies ++ replies)
      (collect_messages fuel) (with_rows columns bodies rest)
      (collect-rows fuel columns bodies replies rest (λ left le. h left (omega arith))
        (omega arith))

length-data_rows : (bodies : List DataRowBody) → length (data_rows bodies) ≡ length bodies
length-data_rows [] = refl
length-data_rows (body ∷ bodies) = ap suc (length-data_rows bodies)

collect-command :
    (fuel : ℕ) (columns : Option (List Text)) (tag : Text) (replies : Replies)
    (rest : Result Error (List SimpleQueryMessage))
    → ((less : ℕ) → length replies ≤ less → collect_messages less replies columns ≡ returns rest)
    → suc (length replies) ≤ fuel
    → collect_messages fuel (ok (command_complete (ok tag)) ∷ replies) columns
      ≡ returns (rest >>= λ ms. ok (command_done (rows_of_tag tag) ∷ ms))
unfolding collect_messages simple_next
collect-command zero columns tag replies rest h enough = absurd (omega arith)
collect-command (suc fuel) columns tag replies rest h enough =
    on_step-message (ok (command_done (rows_of_tag tag))) columns replies (collect_messages fuel)
      rest (h fuel (omega arith))

collect-answers :
    (fuel : ℕ) (answers : List Answer) (rest : Replies) (columns : Option (List Text))
    → length (replies_of answers rest) ≤ fuel
    → collect_messages fuel (replies_of answers rest) columns ≡ returns (messages_of answers)
unfolding collect_messages simple_next
collect-answers zero [] rest columns enough = absurd (omega arith)
collect-answers (suc fuel) [] rest columns enough = refl
collect-answers zero (row_set fields bodies tag ∷ answers) rest columns enough =
    absurd (omega arith)
collect-answers (suc fuel) (row_set fields bodies tag ∷ answers) rest columns enough =
    let names = map (λ f. f.0) fields in
    let more = ok (command_complete (ok tag)) ∷ replies_of answers rest in
    let l = length-append (data_rows bodies) more in
    let l2 = length-data_rows bodies in
    rw (collect_items-items_of fields) (
      collect-rows (suc fuel) names bodies more
        (messages_of answers >>= λ ms. ok (command_done (rows_of_tag tag) ∷ ms))
        (λ left le.
          collect-command left (some names) tag (replies_of answers rest) (messages_of answers)
            (λ less le2. collect-answers less answers rest (some names) le2) (omega (arith, l, l2)))
        (omega (arith, l, l2)))
collect-answers fuel (command tag ∷ answers) rest columns enough =
    collect-command fuel columns tag (replies_of answers rest) (messages_of answers)
      (λ less le. collect-answers less answers rest columns le) enough
collect-answers zero (empty_query ∷ answers) rest columns enough = absurd (omega arith)
collect-answers (suc fuel) (empty_query ∷ answers) rest columns enough =
    on_step-message (ok (command_done 0)) columns (replies_of answers rest) (collect_messages fuel)
      (messages_of answers) (collect-answers fuel answers rest columns (omega arith))

-- When the server answers statements each with columns, rows and a tag, with a tag alone, or with
-- EmptyQueryResponse, `simple_query` returns the rows of each statement in order, each with the columns
-- of its own statement, and behind them the number of its tag, which is 0 for an empty query, or the
-- first error of a row.
pub simple_query-replies_of :
    (answers : List Answer) (rest : Replies)
    → simple_query (replies_of answers rest) ≡ returns (messages_of answers)
simple_query-replies_of answers rest =
    collect-answers (suc (length (replies_of answers rest))) answers rest none (omega arith)

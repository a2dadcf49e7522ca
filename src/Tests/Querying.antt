-- ===== src/Tests/Querying.antt =====
-- Replies to a query: two rows of one column, and the same messages as bytes in two batches.
use may_postgres.Base.{
  ℕ, List, [], ◌∷◌, ◌++◌, ◌≡◌, refl, arith, none, some, Bytes, codes, map, ok, err, returns,
}
use may_postgres.Protocol.{
  finished, item, DataRowBody, bind_complete, ready_for_query, command_complete,
}
use may_postgres.Client.{next, answer_from}
use may_postgres.Client.Refines.{Gives, next_message, next_batch, all_read, Answers, next-Answers}
use may_postgres.Client.Query.{
  Statement, Row, Replies, row_new, row_next, collect_rows, query, query_one, query_opt,
  rows_of_tag, execute,
}
use may_postgres.Client.Agree.{one_of, at_most_one_of, query-query_one}
use may_postgres.Client.Replied.{reply_with, rows_of, query-reply_with}
use may_postgres.Client.Tag.{rows_of_tag-decimal}
use may_postgres.Base.Decimal.{decimal}
use may_postgres.Tests.Wire.{wire, parse_message, parse_header}
use may_postgres.Tests.Decoding.{bound, ready}

abbrev statement : Statement
statement = record {
  name = codes "s0";
  params = [];
  columns = record { name = codes "n"; type_ = 23 } ∷ [];
}

abbrev body : DataRowBody
body = record { buffer = 1 ∷ []; ranges = item (some (record { start = 0; end = 1 })) finished }

abbrev row : Row
row = record {
  statement = statement;
  body = body;
  ranges = some (record { start = 0; end = 1 }) ∷ [];
}

abbrev replies : Replies
replies = reply_with (body ∷ body ∷ []) (ok (command_complete (ok (codes "SELECT 2")))) []

two_rows : query statement replies ≡ returns (ok (row ∷ row ∷ []))
unfolding collect_rows row_next row_new
two_rows = refl

query-query_one_example :
    (query_one statement replies ≡ one_of (row ∷ row ∷ []))
    × (query_opt statement replies ≡ at_most_one_of (row ∷ row ∷ []))
query-query_one_example = query-query_one statement replies (row ∷ row ∷ []) two_rows

query-reply_with_example :
    (query statement
        (reply_with (body ∷ body ∷ []) (ok (command_complete (ok (codes "SELECT 2")))) [])
      ≡ returns (rows_of statement (body ∷ body ∷ [])))
    × (execute (reply_with (body ∷ body ∷ []) (ok (command_complete (ok (codes "SELECT 2")))) [])
        ≡ ok (rows_of_tag (codes "SELECT 2")))
query-reply_with_example = query-reply_with statement (body ∷ body ∷ []) (codes "SELECT 2") []

tag_of_two : rows_of_tag (codes "SELECT 2") ≡ 2
unfolding rows_of_tag may_postgres.Base.split may_postgres.Base.Number.parse_unsigned
tag_of_two = refl

-- The second message comes in a batch of its own.
spread : Gives wire [] (bound ∷ ready ∷ []) (ok bind_complete ∷ ok ready_for_query ∷ [])
unfolding parse_message parse_header
spread = next_batch refl (
    next_message bind_complete [] refl
      (next_batch refl (next_message ready_for_query [] refl (all_read refl))))

next-Answers_example :
    Answers wire
      (ok bind_complete ∷ ok ready_for_query ∷ [])
      (next wire (answer_from [] (bound ∷ ready ∷ [])))
next-Answers_example =
    next-Answers wire (answer_from [] (bound ∷ ready ∷ []))
      (ok bind_complete ∷ ok ready_for_query ∷ []) spread

rows_of_tag-decimal_example : rows_of_tag (codes "INSERT 0" ++ b' ' ∷ decimal 42) ≡ 42
rows_of_tag-decimal_example = rows_of_tag-decimal (codes "INSERT 0") 42 (omega arith)

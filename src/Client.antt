-- ===== src/Client.antt =====
-- src/client.rs: the responses to a request, as they come out of its channel. What the queries make
-- of them stands in `Query` and `Simple`.
pub mod Refines
pub mod Query
pub mod Simple
pub mod Agree
pub mod Replied
pub mod Tag
use may_postgres.Base.{List, [], ◌∷◌, Option, none, some, Bytes, Result, ok, err}
use may_postgres.Protocol.{IoError, Message, error_response, Protocol}
use may_postgres.Error.{Error, closed_error, parse_error, db_failure}

-- `receiver` is the batches that the channel still gives before it is closed: the reading coroutine
-- drops its end when the request is complete.
pub record Responses : Type 0 where
  pub cur : Bytes
  pub receiver : List Bytes

abbrev pub answer_from : Bytes → List Bytes → Responses
answer_from cur receiver = record { cur = cur; receiver = receiver }

-- The `match` on `self.cur.next()`, with what follows it; `cur` is what an error leaves.
abbrev pub on_next :
    Result IoError (Option (Message × Bytes))
    → Bytes
    → List Bytes
    → Result Error Message × Responses
    → Result Error Message × Responses
on_next (err e) cur receiver received = (err (parse_error e), answer_from cur receiver)
on_next (ok (some (error_response body, rest))) cur receiver received =
    (err (db_failure body), answer_from rest receiver)
on_next (ok (some (message, rest))) cur receiver received = (ok message, answer_from rest receiver)
on_next (ok none) cur receiver received = received

-- The loop of `Responses::next`.
unfoldable pub next_from : Protocol → Bytes → List Bytes → Result Error Message × Responses
next_from p cur [] =
    on_next (p.parse_message cur) (p.behind_error cur) [] (err closed_error, answer_from cur [])
next_from p cur (messages ∷ receiver) =
    on_next (p.parse_message cur) (p.behind_error cur) (messages ∷ receiver)
      (next_from p messages receiver)

abbrev pub next : Protocol → Responses → Result Error Message × Responses
next p r = next_from p r.cur r.receiver

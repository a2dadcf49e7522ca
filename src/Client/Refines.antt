-- ===== src/Client/Refines.antt =====
-- `Responses::next` of src/client.rs gives the messages of its batches one after the other.
use mathlib.Core.Path.{subst}
use may_postgres.Base.{List, [], ◌∷◌, ◌≡◌, refl, sym, none, some, Bytes, Result, ok, err}
use may_postgres.Protocol.{Message, error_response, Protocol}
use may_postgres.Error.{Error, closed_error, db_failure}
use may_postgres.Client.{Responses, answer_from, on_next, next_from, next}
use may_postgres.Client.Query.{Replies, next_reply}

-- An error response is returned as an error.
abbrev pub reply_of : Message → Result Error Message
reply_of (error_response body) = err (db_failure body)
reply_of message = ok message

-- The replies that a buffer and the batches behind it hold: each buffer is a sequence of whole
-- messages.
pub data Gives (p : Protocol) : Bytes → List Bytes → Replies → Type 0 where
  next_message :
      {cur : Bytes} {receiver : List Bytes} {replies : Replies} (m : Message) (rest : Bytes)
      → p.parse_message cur ≡ ok (some (m, rest))
      → Gives p rest receiver replies
      → Gives p cur receiver (reply_of m ∷ replies)
  next_batch :
      {cur batch : Bytes} {receiver : List Bytes} {replies : Replies}
      → p.parse_message cur ≡ ok none
      → Gives p batch receiver replies
      → Gives p cur (batch ∷ receiver) replies
  all_read : {cur : Bytes} → p.parse_message cur ≡ ok none → Gives p cur [] []

-- A call returned the first of the replies, and the others are left.
pub record Answers (p : Protocol) (replies : Replies) (r : Result Error Message × Responses)
    : Type 0 where
  pub result_is : r.0 ≡ (next_reply replies).0
  pub left : Gives p r.1.cur r.1.receiver (next_reply replies).1

on_next-message :
    (m : Message) (rest cur : Bytes) (receiver : List Bytes)
    (more : Result Error Message × Responses)
    → on_next (ok (some (m, rest))) cur receiver more ≡ (reply_of m, answer_from rest receiver)
on_next-message (error_response body) rest cur receiver more = refl
on_next-message _ rest cur receiver more = refl

next_from-message :
    (p : Protocol) (m : Message) (rest cur : Bytes) (receiver : List Bytes)
    → p.parse_message cur ≡ ok (some (m, rest))
    → next_from p cur receiver ≡ (reply_of m, answer_from rest receiver)
unfolding next_from
next_from-message p m rest cur [] e = rw e (on_next-message m rest (p.behind_error cur) [] _)
next_from-message p m rest cur (b ∷ bs) e =
    rw e (on_next-message m rest (p.behind_error cur) (b ∷ bs) _)

next_from-batch :
    (p : Protocol) (cur batch : Bytes) (receiver : List Bytes)
    → p.parse_message cur ≡ ok none
    → next_from p cur (batch ∷ receiver) ≡ next_from p batch receiver
unfolding next_from
next_from-batch p cur batch receiver e = rw e refl

next_from-closed :
    (p : Protocol) (cur : Bytes)
    → p.parse_message cur ≡ ok none
    → next_from p cur [] ≡ (err closed_error, answer_from cur [])
unfolding next_from
next_from-closed p cur e = rw e refl

next_from-Answers :
    (p : Protocol) {cur : Bytes} {receiver : List Bytes} {replies : Replies}
    → Gives p cur receiver replies
    → Answers p replies (next_from p cur receiver)
next_from-Answers p (next_message {cur} {receiver} {replies} m rest e more) =
    subst (Answers p (reply_of m ∷ replies)) (sym (next_from-message p m rest cur receiver e))
      (record { result_is = refl; left = more })
next_from-Answers p (next_batch {cur} {batch} {receiver} {replies} e more) =
    subst (Answers p replies) (sym (next_from-batch p cur batch receiver e))
      (next_from-Answers p more)
next_from-Answers p (all_read {cur} e) =
    subst (Answers p []) (sym (next_from-closed p cur e))
      (record { result_is = refl; left = all_read e })

-- However the replies to a request are spread over batches, empty ones included, a call of
-- `Responses::next` returns the first of them and leaves the others; an error response comes out as
-- its error, and behind the last message every call says that the connection is closed.
pub next-Answers :
    (p : Protocol) (r : Responses) (replies : Replies)
    → Gives p r.cur r.receiver replies
    → Answers p replies (next p r)
next-Answers p r replies h = next_from-Answers p h

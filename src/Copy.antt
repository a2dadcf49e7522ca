-- ===== src/Copy.antt =====
-- src/copy_in.rs and src/copy_out.rs: the data of a COPY to the server and from it. `CopyInReceiver`
-- stands with the writing coroutine.
pub mod Sink
pub mod Finish
pub mod Writer
pub mod Binary
use may_postgres.Base.{
  ℕ, zero, suc, List, [], ◌∷◌, ◌++◌, Option, none, some, ltb, if◌then◌else◌, length, Bytes, Result,
  ok, err, ◌>>=◌, map_err,
}
use may_postgres.Protocol.{
  IoError, Message, bind_complete, command_complete, copy_data, copy_done, copy_in_response,
  copy_out_response,
}
use may_postgres.Error.{Error, closed_error, encode_error, parse_error, unexpected_message_error}
use may_postgres.Client.Query.{Replies, next_reply, rows_of_tag}
use may_postgres.Connection.Sender
use may_postgres.Connection.Sender.{FrontendMessage, raw, CopyInMessage, message, done}

-- The sender's end of the channel: what was sent, and how many sends still succeed before the
-- receiver is gone, if it goes.
pub record CopySender : Type 0 where
  pub sent : List CopyInMessage
  pub lost_after : Option ℕ

pub record CopyInSink : Type 0 where
  pub sender : CopySender
  pub responses : Replies
  pub buf : Bytes

abbrev on_channel : CopyInMessage → CopySender → Option ℕ → Result Error Unit × CopySender
on_channel m s none = (ok tt, record s { sent = s.sent ++ m ∷ [] })
on_channel m s (some (suc n)) = (ok tt, record { sent = s.sent ++ m ∷ []; lost_after = some n })
on_channel m s (some zero) = (err closed_error, s)

-- `sender.send(..).map_err(|_| Error::closed())`
abbrev pub send_message : CopyInMessage → CopySender → Result Error Unit × CopySender
send_message m s = on_channel m s s.lost_after

-- The two replies before the data of `copy_in` and of `copy_out`.
abbrev pub bound : Replies → Result Error Replies
bound [] = err closed_error
bound (err e ∷ replies) = err e
bound (ok bind_complete ∷ replies) = ok replies
bound (ok _ ∷ replies) = err unexpected_message_error

abbrev pub in_accepted : Replies → Result Error Replies
in_accepted [] = err closed_error
in_accepted (err e ∷ replies) = err e
in_accepted (ok copy_in_response ∷ replies) = ok replies
in_accepted (ok _ ∷ replies) = err unexpected_message_error

abbrev pub out_accepted : Replies → Result Error Replies
out_accepted [] = err closed_error
out_accepted (err e ∷ replies) = err e
out_accepted (ok copy_out_response ∷ replies) = ok replies
out_accepted (ok _ ∷ replies) = err unexpected_message_error

abbrev opened : Result Error Unit × CopySender → Replies → Result Error CopyInSink
opened (err e, s) replies = err e
opened (ok _, s) replies = do
  more ← bound replies
  rest ← in_accepted more
  ok (record { sender = s; responses = rest; buf = [] })

-- `copy_in` behind the request: the bytes of Bind and Execute, the channel, and the replies.
abbrev pub copy_in : Bytes → CopySender → Replies → Result Error CopyInSink
copy_in buf sender replies = opened (send_message (message (raw buf)) sender) replies

-- `start` of copy_out.rs behind the request.
abbrev pub start : Replies → Result Error Replies
start replies = bound replies >>= out_accepted

-- `CopyOutStream::next`
abbrev pub out_next : Replies → Option (Result Error Bytes) × Replies
out_next [] = (some (err closed_error), [])
out_next (err e ∷ replies) = (some (err e), replies)
out_next (ok (copy_data body) ∷ replies) = (some (ok body), replies)
out_next (ok copy_done ∷ replies) = (none, replies)
out_next (ok _ ∷ replies) = (some (err unexpected_message_error), replies)

abbrev pub on_row_tag : Result Error Message × Replies → Result Error ℕ × Replies
on_row_tag (err e, replies) = (err e, replies)
on_row_tag (ok (command_complete tag), replies) =
    (map_err parse_error tag >>= λ t. ok (rows_of_tag t), replies)
on_row_tag (ok _, replies) = (err unexpected_message_error, replies)

-- `CopyData::new`: whether it takes data of this length.
module _ (copy_data_new : Bytes → Result IoError Unit) where
  -- A message of data, the buffer being empty behind it.
  abbrev on_copy_data : Bytes → CopyInSink → Result IoError Unit → Result Error Unit × CopyInSink
  on_copy_data data_ s (err e) = (err (encode_error e), s)
  on_copy_data data_ s (ok _) =
      let (r, sender) = send_message (message (Sender.copy_data data_)) s.sender in
      (r, record s { sender = sender })

  abbrev pub send_data : Bytes → CopyInSink → Result Error Unit × CopyInSink
  send_data data_ s = on_copy_data data_ (record s { buf = [] }) (copy_data_new data_)

  -- `CopyInSink::send`
  unfoldable pub send : Bytes → CopyInSink → Result Error Unit × CopyInSink
  send item s =
      if ltb 4096 (length item)
      then send_data (s.buf ++ item) s
      else if ltb 4096 (length (s.buf ++ item))
      then send_data (s.buf ++ item) s
      else (ok tt, record s { buf = s.buf ++ item })

  abbrev pub and_then :
      {A : Type 0}
      → Result Error Unit × CopyInSink
      → (CopyInSink → Result Error A × CopyInSink)
      → Result Error A × CopyInSink
  and_then (err e, s) next = (err e, s)
  and_then (ok _, s) next = next s

  abbrev on_item :
      Result Error Bytes
      → CopyInSink
      → (CopyInSink → Result Error Unit × CopyInSink)
      → Result Error Unit × CopyInSink
  on_item (err e) s next = (err e, s)
  on_item (ok item) s next = and_then (send item s) next

  -- `CopyInSink::send_all`
  unfoldable pub send_all : List (Result Error Bytes) → CopyInSink → Result Error Unit × CopyInSink
  unfolding send
  send_all [] s = (ok tt, s)
  send_all (item ∷ items) s = on_item item s (send_all items)

  abbrev pub flush_rest : Bytes → CopyInSink → Result Error Unit × CopyInSink
  flush_rest [] s = (ok tt, s)
  flush_rest (b ∷ bs) s = send_data (b ∷ bs) s

  abbrev pub send_done : CopyInSink → Result Error Unit × CopyInSink
  send_done s = let (r, sender) = send_message done s.sender in (r, record s { sender = sender })

  abbrev pub await_tag : CopyInSink → Result Error ℕ × CopyInSink
  await_tag s =
      let (r, replies) = on_row_tag (next_reply s.responses) in
      (r, record s { responses = replies })

  -- `CopyInSink::finish`
  unfoldable pub finish : CopyInSink → Result Error ℕ × CopyInSink
  finish s = and_then (flush_rest s.buf s) (λ t. and_then (send_done t) await_tag)

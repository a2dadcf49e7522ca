-- ===== src/Connection/Sender.antt =====
-- The writing coroutine of `Connection::new` in src/connection.rs, and `CopyInReceiver` of
-- src/copy_in.rs, from which it takes the messages of a COPY.
pub mod Reaches
pub mod Requests
pub mod Order
use may_postgres.Base.{
  ℕ, ◌+◌, Bool, true, false, List, [], ◌∷◌, ◌++◌, length, concat, Bytes, Text, codes, ok, err,
  returns, panics, out_of_fuel,
}
use may_postgres.Protocol.{IoError, broken_pipe, Frontend}
use may_postgres.VecBuf.{Writer, VecBufs, FlushResult, flush, write_bytes}

-- What a channel answers to its receiver, one answer a call: a value; for `try_recv` also that it is
-- empty. Behind `disconnected` it stays so; `end` is the end of what is looked at.
pub data Channel (A : Type 0) : Type 0 where
  end : Channel A
  got : A → Channel A → Channel A
  empty : Channel A → Channel A
  disconnected : Channel A

pub data FrontendMessage : Type 0 where
  raw copy_data : Bytes → FrontendMessage

pub data CopyInMessage : Type 0 where
  message : FrontendMessage → CopyInMessage
  done : CopyInMessage

pub data RequestMessages : Type 0 where
  single : FrontendMessage → RequestMessages
  copy_in : Channel CopyInMessage → RequestMessages

-- `sender` is the number of the channel for the responses.
pub record Request : Type 0 where
  pub messages : RequestMessages
  pub sender : ℕ

-- The next call on a channel: `try_recv`; `try_recv` again after the coroutine has yielded; `recv`,
-- which waits while the channel is empty.
pub data Mode : Type 0 where
  trying yielded blocked : Mode

-- The bytes of a message, as the coroutine writes it.
abbrev pub bytes_of : Frontend → FrontendMessage → Bytes
bytes_of frontend (raw buf) = buf
bytes_of frontend (copy_data data_) = frontend.write_copy_data data_

-- `CopyInReceiver::try_recv` and `recv` on a message: what they return, and `done` afterwards.
abbrev pub copy_message : Frontend → CopyInMessage → FrontendMessage
copy_message frontend (message m) = m
copy_message frontend done = raw (frontend.copy_done ++ frontend.sync)

abbrev pub is_done : CopyInMessage → Bool
is_done (message _) = false
is_done done = true

-- The same on a channel whose sender is gone.
abbrev pub abort_message : Frontend → FrontendMessage
abort_message frontend = raw (frontend.copy_fail [] ++ frontend.sync)

-- `rsp_queue` is every response that was pushed.
pub record Sender (W : Type 0) : Type 0 where
  pub rsp_queue : List ℕ
  pub writer : VecBufs W

-- What a part of the coroutine does: it goes on; what is looked at ends, in a call of `try_recv` or
-- of `recv`; it returns an error; a write of the buffer lacks fuel; it panics.
pub data Outcome (W : Type 0) : Type 0 where
  going paused waiting : Sender W → Outcome W
  failed : IoError → Sender W → Outcome W
  spinning : Sender W → Outcome W
  broken : Outcome W

abbrev pub and_then : {W : Type 0} → Outcome W → (Sender W → Outcome W) → Outcome W
and_then (going s) f = f s
and_then (paused s) f = paused s
and_then (waiting s) f = waiting s
and_then (failed e s) f = failed e s
and_then (spinning s) f = spinning s
and_then broken f = broken

abbrev pub at_end : {W : Type 0} → Mode → Sender W → Outcome W
at_end trying s = paused s
at_end yielded s = paused s
at_end blocked s = waiting s

abbrev pub queue_closed : IoError
queue_closed = record { kind = broken_pipe; text = codes "request queue closed" }

-- Enough for a flush of all that is buffered, with so many writes that take nothing.
abbrev pub fuel_for : {W : Type 0} → ℕ → Bytes → VecBufs W → ℕ
fuel_for idle buf v = length (concat v.bufs) + length buf + 2 + idle

-- `idle` is how many writes of a flush may be answered by `Ok(0)` before it is taken to spin.
module _ (writer : Writer IoError) (frontend : Frontend) (idle : ℕ) where
  open writer use {Stream}

  -- `?` behind a call of the write buffer
  abbrev pub written_or : FlushResult writer → Sender Stream → Outcome Stream
  written_or (returns (ok _, v)) s = going (record s { writer = v })
  written_or (returns (err e, v)) s = failed e (record s { writer = v })
  written_or panics s = broken
  written_or out_of_fuel s = spinning s

  unfoldable pub write : FrontendMessage → Sender Stream → Outcome Stream
  write m s =
      let buf = bytes_of frontend m in
      written_or (write_bytes writer (fuel_for idle buf s.writer) buf s.writer) s

  unfoldable pub flush_all : Sender Stream → Outcome Stream
  flush_all s = written_or (flush writer (fuel_for idle [] s.writer) s.writer) s

  -- The loop of a COPY; the first argument is `done`.
  unfoldable pub copy_loop : Mode → Bool → Channel CopyInMessage → Sender Stream → Outcome Stream
  copy_loop mode true _ s = going s
  copy_loop mode false end s = at_end mode s
  copy_loop mode false (got m messages) s =
      and_then (write (copy_message frontend m) s) (copy_loop trying (is_done m) messages)
  copy_loop blocked false (empty messages) s = copy_loop blocked false messages s
  copy_loop _ false (empty messages) s = and_then (flush_all s) (copy_loop blocked false messages)
  copy_loop mode false disconnected s = write (abort_message frontend) s

  abbrev pub serve_messages : RequestMessages → Sender Stream → Outcome Stream
  serve_messages (single m) s = write m s
  serve_messages (copy_in messages) s = copy_loop trying false messages s

  abbrev pub serve : Request → Sender Stream → Outcome Stream
  serve req s =
      serve_messages req.messages (record s { rsp_queue = s.rsp_queue ++ req.sender ∷ [] })

  -- The loop of `main`. A failed `recv` is taken for an empty queue, on which `try_recv` fails.
  unfoldable pub send_loop : Mode → Channel Request → Sender Stream → Outcome Stream
  send_loop mode end s = at_end mode s
  send_loop mode (got req requests) s = and_then (serve req s) (send_loop trying requests)
  send_loop trying (empty requests) s = send_loop yielded requests s
  send_loop yielded (empty requests) s = and_then (flush_all s) (send_loop blocked requests)
  send_loop blocked (empty requests) s = send_loop blocked requests s
  send_loop mode disconnected s = failed queue_closed s

-- ===== src/Session/Batches.antt =====
-- `StartupStream::next_msg` of src/connect_raw.rs: messages out of the batches of the codec.
use mathlib.Core.Path.{subst}
use may_postgres.Base.{
  List, [], ◌∷◌, ◌≡◌, refl, sym, Bool, Option, none, some, Bytes, Result, ok, err,
}
use may_postgres.Protocol.{IoError, Message, Protocol}
use may_postgres.Codec.{BackendMessage, normal, async, closed}

-- `buf` is the batch under way, `inner` what the calls of `Framed::next_msg` return until the
-- connection is closed.
pub record StartupStream : Type 0 where
  pub inner : List (Result IoError BackendMessage)
  pub buf : Bytes

abbrev startup_stream : List (Result IoError BackendMessage) → Bytes → StartupStream
startup_stream inner buf = record { inner = inner; buf = buf }

-- `self.buf.next()?`, with what follows it.
abbrev on_buffered :
    Result IoError (Option (Message × Bytes))
    → Bytes
    → List (Result IoError BackendMessage)
    → Result IoError Message × StartupStream
    → Result IoError Message × StartupStream
on_buffered (err e) buf inner more = (err e, startup_stream inner buf)
on_buffered (ok (some (m, rest))) buf inner more = (ok m, startup_stream inner rest)
on_buffered (ok none) buf inner more = more

unfoldable pub next_msg_from :
    Protocol → List (Result IoError BackendMessage) → Bytes → Result IoError Message × StartupStream
next_msg_from p [] buf =
    on_buffered (p.parse_message buf) (p.behind_error buf) [] (err closed, startup_stream [] buf)
next_msg_from p (err e ∷ inner) buf =
    on_buffered (p.parse_message buf) (p.behind_error buf) (err e ∷ inner)
      (err e, startup_stream inner buf)
next_msg_from p (ok (normal messages complete) ∷ inner) buf =
    on_buffered (p.parse_message buf) (p.behind_error buf) (ok (normal messages complete) ∷ inner)
      (next_msg_from p inner messages)
next_msg_from p (ok (async m) ∷ inner) buf =
    on_buffered (p.parse_message buf) (p.behind_error buf) (ok (async m) ∷ inner)
      (ok m, startup_stream inner buf)

abbrev pub next_msg : Protocol → StartupStream → Result IoError Message × StartupStream
next_msg p s = next_msg_from p s.inner s.buf

-- The messages that the buffer and what the codec returns hold, with the errors in their places.
pub data Spread (p : Protocol)
    : List (Result IoError BackendMessage) → Bytes → List (Result IoError Message) → Type 0 where
  buffered :
      {inner : List (Result IoError BackendMessage)} {buf : Bytes}
      {more : List (Result IoError Message)} (m : Message) (rest : Bytes)
      → p.parse_message buf ≡ ok (some (m, rest))
      → Spread p inner rest more
      → Spread p inner buf (ok m ∷ more)
  batch :
      {inner : List (Result IoError BackendMessage)} {buf messages : Bytes}
      {more : List (Result IoError Message)} (complete : Bool)
      → p.parse_message buf ≡ ok none
      → Spread p inner messages more
      → Spread p (ok (normal messages complete) ∷ inner) buf more
  single :
      {inner : List (Result IoError BackendMessage)} {buf : Bytes}
      {more : List (Result IoError Message)} (m : Message)
      → p.parse_message buf ≡ ok none
      → Spread p inner buf more
      → Spread p (ok (async m) ∷ inner) buf (ok m ∷ more)
  failure :
      {inner : List (Result IoError BackendMessage)} {buf : Bytes}
      {more : List (Result IoError Message)} (e : IoError)
      → p.parse_message buf ≡ ok none
      → Spread p inner buf more
      → Spread p (err e ∷ inner) buf (err e ∷ more)
  end_of_stream : {buf : Bytes} → p.parse_message buf ≡ ok none → Spread p [] buf []

abbrev first_of : List (Result IoError Message) → Result IoError Message
first_of [] = err closed
first_of (r ∷ rs) = r

abbrev rest_of : List (Result IoError Message) → List (Result IoError Message)
rest_of [] = []
rest_of (r ∷ rs) = rs

-- A call returned the first of the messages, and the others are left.
pub record Answers (p : Protocol) (messages : List (Result IoError Message))
    (r : Result IoError Message × StartupStream) : Type 0 where
  pub result_is : r.0 ≡ first_of messages
  pub left : Spread p r.1.inner r.1.buf (rest_of messages)

next_msg_from-buffered :
    (p : Protocol) (inner : List (Result IoError BackendMessage)) (buf rest : Bytes) (m : Message)
    → p.parse_message buf ≡ ok (some (m, rest))
    → next_msg_from p inner buf ≡ (ok m, startup_stream inner rest)
unfolding next_msg_from
next_msg_from-buffered p [] buf rest m e = rw e refl
next_msg_from-buffered p (err x ∷ inner) buf rest m e = rw e refl
next_msg_from-buffered p (ok (normal messages complete) ∷ inner) buf rest m e = rw e refl
next_msg_from-buffered p (ok (async n) ∷ inner) buf rest m e = rw e refl

next_msg_from-normal :
    (p : Protocol) (inner : List (Result IoError BackendMessage)) (buf messages : Bytes)
    (complete : Bool)
    → p.parse_message buf ≡ ok none
    → next_msg_from p (ok (normal messages complete) ∷ inner) buf ≡ next_msg_from p inner messages
unfolding next_msg_from
next_msg_from-normal p inner buf messages complete e = rw e refl

next_msg_from-Answers :
    (p : Protocol) {inner : List (Result IoError BackendMessage)} {buf : Bytes}
    {messages : List (Result IoError Message)}
    → Spread p inner buf messages
    → Answers p messages (next_msg_from p inner buf)
unfolding next_msg_from
next_msg_from-Answers p (buffered {inner} {buf} {more} m rest e spread) =
    subst (Answers p (ok m ∷ more)) (sym (next_msg_from-buffered p inner buf rest m e))
      (record { result_is = refl; left = spread })
next_msg_from-Answers p (batch {inner} {buf} {messages} {more} complete e spread) =
    subst (Answers p more) (sym (next_msg_from-normal p inner buf messages complete e))
      (next_msg_from-Answers p spread)
next_msg_from-Answers p (single {inner} {buf} m e spread) =
    rw e (record { result_is = refl; left = spread })
next_msg_from-Answers p (failure {inner} {buf} x e spread) =
    rw e (record { result_is = refl; left = spread })
next_msg_from-Answers p (end_of_stream {buf} e) =
    rw e (record { result_is = refl; left = end_of_stream e })

-- However the messages are spread over batches, single messages and errors of the codec, a call of
-- `next_msg` returns the first of them and leaves the others; behind the last one every call says
-- that the connection is closed.
pub startup_next-Answers :
    (p : Protocol) (s : StartupStream) (messages : List (Result IoError Message))
    → Spread p s.inner s.buf messages
    → Answers p messages (next_msg p s)
startup_next-Answers p s messages h = next_msg_from-Answers p h

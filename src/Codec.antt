-- ===== src/Codec.antt =====
-- src/codec.rs: the decoder that cuts the byte stream of the server into batches of messages, and
-- the loop that feeds it from the socket.
pub mod Frames
pub mod Sound
pub mod Complete
pub mod Stream
use may_postgres.Base.{
  ℕ, zero, suc, ◌+◌, ◌-◌, ◌≤◌, Bool, true, false, ◌||◌, List, [], ◌∷◌, ◌++◌, ◌≡◌, Option, none,
  some, ltb, ◌==◌, if◌then◌else◌, length, take, drop, Bytes, Result, ok, err, Run, returns, panics,
  out_of_fuel, codes,
}
use may_postgres.Protocol.{
  IoError, broken_pipe, Message, Header, Protocol, notice_response_tag, notification_response_tag,
  parameter_status_tag, ready_for_query_tag,
}

-- `BackendMessages` is its buffer.
pub data BackendMessage : Type 0 where
  normal : Bytes → Bool → BackendMessage
  async : Message → BackendMessage

-- The tags of the first arm of the `match` in `decode`.
abbrev pub is_async_tag : ℕ → Bool
is_async_tag tag =
    tag == notice_response_tag || tag == notification_response_tag || tag == parameter_status_tag

-- What `decode` returns, and the buffer that it leaves.
abbrev pub Decoded : Type 0
Decoded = Run (Result IoError (Option BackendMessage) × Bytes)

-- The code behind the loop.
unfoldable pub finish : Bytes → ℕ → Bool → Decoded
finish src idx request_complete =
    if idx == 0
    then returns (ok none, src)
    else returns (ok (some (normal (take idx src) request_complete)), drop idx src)

-- `Message::parse(src)?.unwrap()`
unfoldable pub take_async : Bytes → Result IoError (Option (Message × Bytes)) → Decoded
take_async src (err e) = returns (err e, src)
take_async src (ok none) = panics
take_async src (ok (some (message, rest))) = returns (ok (some (async message)), rest)

module _ (p : Protocol) where
  -- The body of the loop behind a header.
  unfoldable pub on_header : (ℕ → Decoded) → Bytes → ℕ → Header → Decoded
  on_header continue src idx header =
      let len = header.len + 1 in
      if ltb (length (drop idx src)) len
      then finish src idx false
      else if is_async_tag header.tag
      then (if idx == 0
          then take_async (p.behind_error src) (p.parse_message src)
          else finish src idx false)
      else let next = continue (idx + len) in
        if header.tag == ready_for_query_tag then finish src (idx + len) true else next

  unfoldable pub on_parsed : (ℕ → Decoded) → Bytes → ℕ → Result IoError (Option Header) → Decoded
  on_parsed continue src idx (err e) = returns (err e, src)
  on_parsed continue src idx (ok none) = finish src idx false
  on_parsed continue src idx (ok (some header)) = on_header continue src idx header

  -- `while let Some(header) = Header::parse(&src[idx..])?`, on fuel
  unfoldable pub decode_loop : ℕ → Bytes → ℕ → Decoded
  decode_loop zero src idx = out_of_fuel
  decode_loop (suc fuel) src idx =
      on_parsed (decode_loop fuel src) src idx (p.parse_header (drop idx src))

  -- Every round but the last passes a message, so the bytes of `src` bound the rounds.
  unfoldable pub decode : Bytes → Decoded
  decode src = decode_loop (suc (length src)) src 0

-- `Framed::next_msg`: what the caller sees, with the buffer and the reads that are left. A read
-- that has not come yet leaves the caller waiting.
pub data NextMsg : Type 0 where
  received : Result IoError BackendMessage → Bytes → List (Result IoError Bytes) → NextMsg
  waits : Bytes → NextMsg
  panicked stuck : NextMsg

abbrev pub closed : IoError
closed = record { kind = broken_pipe; text = codes "closed" }

unfoldable pub on_decoded : Decoded → (Bytes → NextMsg) → List (Result IoError Bytes) → NextMsg
on_decoded (returns (ok (some msg), buf)) more reads = received (ok msg) buf reads
on_decoded (returns (ok none, buf)) more reads = more buf
on_decoded (returns (err e, buf)) more reads = received (err e) buf reads
on_decoded panics more reads = panicked
on_decoded out_of_fuel more reads = stuck

-- `self.r_stream.read(read_buf)?`: no bytes mean that the connection was closed.
unfoldable pub on_read :
    Result IoError Bytes → (Bytes → NextMsg) → Bytes → List (Result IoError Bytes) → NextMsg
on_read (err e) again buf reads = received (err e) buf reads
on_read (ok []) again buf reads = received (err closed) buf reads
on_read (ok (b ∷ bs)) again buf reads = again (buf ++ (b ∷ bs))

-- The loop of `next_msg`, over the reads that the socket answers.
unfoldable pub next_msg : Protocol → Bytes → List (Result IoError Bytes) → NextMsg
unfolding on_decoded on_read
next_msg p buf [] = on_decoded (decode p buf) waits []
next_msg p buf (read ∷ reads) =
    on_decoded (decode p buf) (λ b. on_read read (λ b'. next_msg p b' reads) b reads) (read ∷ reads)

-- ===== src/Codec/Stream.antt =====
-- Asynchronous messages, and `next_msg` of src/codec.rs over the reads of the socket.
use may_postgres.Base.{
  ℕ, zero, suc, ◌+◌, Bool, true, false, List, [], ◌∷◌, ◌++◌, ◌≡◌, refl, sym, ap, ◌∙◌, Option, none,
  some, inl, inr, Bool-cases, ltb, le→ltb, arith, length, drop, length-append, append_assoc,
  drop-prefix, Bytes, Result, ok, err, returns, panics, out_of_fuel, ◌==◌,
}
use may_postgres.Protocol.{IoError, Message, Header, Protocol, IsProtocol, ready_for_query_tag}
use may_postgres.Codec.{
  normal, async, Decoded, is_async_tag, finish, take_async, on_header, on_parsed, decode_loop,
  decode, NextMsg, received, waits, on_decoded, on_read, next_msg,
}
use may_postgres.Codec.Frames.{IsFrame, Batch, parse_header-frame}
use may_postgres.Codec.Sound.{decode-Batch}

module _ (p : Protocol) (src : Bytes) (P : Decoded → Type 0)
    (at_finish : (idx : ℕ) (b : Bool) → P (finish src idx b))
    (at_async : (r : Result IoError (Option (Message × Bytes)))
      → P (take_async (p.behind_error src) r))
    (at_error : (e : IoError) → P (returns (err e, src))) (at_end : P out_of_fuel) where
  on_parsed-induction :
      (continue : ℕ → Decoded) (idx : ℕ)
      → ((next : ℕ) → P (continue next))
      → (r : Result IoError (Option Header)) → P (on_parsed p continue src idx r)
  unfolding on_parsed on_header
  on_parsed-induction continue idx ih (err e) = at_error e
  on_parsed-induction continue idx ih (ok none) = at_finish idx false
  on_parsed-induction continue idx ih (ok (some h)) =
      elim (Bool-cases (ltb (length (drop idx src)) (h.len + 1))) [
        | inl short ↦ rw short (at_finish idx false)
        | inr long ↦ elim (Bool-cases (is_async_tag h.tag)) [
          | inl is_async ↦ elim (Bool-cases (idx == 0)) [
            | inl first ↦ rw (long, is_async, first) (at_async _)
            | inr later ↦ rw (long, is_async, later) (at_finish idx false)
          ]
          | inr sync ↦ elim (Bool-cases (h.tag == ready_for_query_tag)) [
            | inl ready ↦ rw (long, sync, ready) (at_finish _ true)
            | inr more ↦ rw (long, sync, more) (ih _)
          ]
        ]
      ]

  -- What holds at every way out of the loop holds of its result.
  decode_loop-induction : (fuel idx : ℕ) → P (decode_loop p fuel src idx)
  unfolding decode_loop
  decode_loop-induction zero idx = at_end
  decode_loop-induction (suc fuel) idx =
      on_parsed-induction (decode_loop p fuel src) idx (decode_loop-induction fuel) _

abbrev NoneKeeps : Bytes → Decoded → Type 0
NoneKeeps src d = (rest : Bytes) → d ≡ returns (ok none, rest) → rest ≡ src

finish-NoneKeeps : (src : Bytes) (idx : ℕ) (b : Bool) → NoneKeeps src (finish src idx b)
unfolding finish
finish-NoneKeeps src idx b rest e = ground arith

take_async-NoneKeeps :
    (src left : Bytes) (r : Result IoError (Option (Message × Bytes)))
    → NoneKeeps src (take_async left r)
unfolding take_async
take_async-NoneKeeps src left (err x) rest e = absurd (ground arith)
take_async-NoneKeeps src left (ok none) rest e = cc
take_async-NoneKeeps src left (ok (some m)) rest e = absurd (ground arith)

decode-NoneKeeps : (p : Protocol) (src : Bytes) → NoneKeeps src (decode p src)
unfolding decode
decode-NoneKeeps p src =
    decode_loop-induction p src (NoneKeeps src) (finish-NoneKeeps src)
      (take_async-NoneKeeps src (p.behind_error src)) (λ x rest e. absurd (ground arith))
      (λ rest e. cc) (suc (length src)) 0

-- The bytes that the reads bring.
abbrev pub stream : List (Result IoError Bytes) → Bytes
stream [] = []
stream (ok chunk ∷ reads) = chunk ++ stream reads
stream (err e ∷ reads) = stream reads

module _ (p : Protocol) (laws : IsProtocol p) where
  -- An asynchronous message at the front of the buffer is returned alone, and exactly its bytes
  -- are taken from the buffer.
  pub decode-async :
      (f more rest : Bytes) (h : Header) (m : Message)
      → IsFrame p f h
      → is_async_tag h.tag ≡ true
      → p.parse_message (f ++ more) ≡ ok (some (m, rest))
      → decode p (f ++ more) ≡ returns (ok (some (async m)), more)
  unfolding decode decode_loop on_parsed on_header take_async
  decode-async f more rest h m frame is_async parsed =
      let header : p.parse_header (f ++ more) ≡ ok (some h) =
        parse_header-frame p laws f more h frame in
      let long : ltb (length (f ++ more)) (h.len + 1) ≡ false =
        le→ltb _ _ (omega (arith, frame.exact, length-append f more)) in
      let left : rest ≡ more =
        laws.message_framed (f ++ more) rest h m header parsed
        ∙ ap (λ n. drop n (f ++ more)) (sym frame.exact)
        ∙ drop-prefix f more in
      rw (header, on_parsed, long, is_async, parsed, left) refl

  -- The stream is the batch, the buffer and what is still to be read.
  record Takes (all ms : Bytes) (c : Bool) (buf : Bytes) (reads : List (Result IoError Bytes))
      : Type 0 where
    stream_is : all ≡ ms ++ (buf ++ stream reads)
    batch : Batch p ms c

  module _ (ms : Bytes) (c : Bool) (buf' : Bytes) (reads' : List (Result IoError Bytes)) where
    abbrev IsReceived : NextMsg → Type 0
    IsReceived r = r ≡ received (ok (normal ms c)) buf' reads'

    on_decoded-Takes :
        (buf : Bytes) (reads : List (Result IoError Bytes)) (more : Bytes → NextMsg) (d : Decoded)
        → decode p buf ≡ d
        → (IsReceived (more buf) → Takes (buf ++ stream reads) ms c buf' reads')
        → IsReceived (on_decoded d more reads)
        → Takes (buf ++ stream reads) ms c buf' reads'
    unfolding on_decoded
    on_decoded-Takes buf reads more (returns (ok (some (async m)), b)) d ih e =
        absurd (ground arith)
    on_decoded-Takes buf reads more (returns (ok (some (normal ms' c')), b)) d ih e =
        let same : reads ≡ reads' = ground arith in
        let (split, batch) = decode-Batch p laws buf ms buf' c (ground arith) in
        record {
          stream_is =
              ap (λ r. buf ++ stream r) same
              ∙ ap (λ l. l ++ stream reads') split
              ∙ append_assoc ms buf' (stream reads');
          batch = batch;
        }
    on_decoded-Takes buf reads more (returns (ok none, b)) d ih e =
        let same : b ≡ buf = decode-NoneKeeps p buf b d in ih (rw same at e)
    on_decoded-Takes buf reads more (returns (err x, b)) d ih e = absurd (ground arith)
    on_decoded-Takes buf reads more panics d ih e = cc
    on_decoded-Takes buf reads more out_of_fuel d ih e = cc

    next_msg-Takes :
        (reads : List (Result IoError Bytes)) (buf : Bytes)
        → IsReceived (next_msg p buf reads)
        → Takes (buf ++ stream reads) ms c buf' reads'
    unfolding next_msg on_read
    next_msg-Takes [] buf e = on_decoded-Takes buf [] waits _ refl (λ w. cc) e
    next_msg-Takes (err x ∷ reads) buf e =
        on_decoded-Takes buf (err x ∷ reads) _ _ refl (λ w. absurd (ground arith)) e
    next_msg-Takes (ok [] ∷ reads) buf e =
        on_decoded-Takes buf (ok [] ∷ reads) _ _ refl (λ w. absurd (ground arith)) e
    next_msg-Takes (ok (b ∷ bs) ∷ reads) buf e =
        on_decoded-Takes buf (ok (b ∷ bs) ∷ reads) _ _ refl
          (λ w. rw (← append_assoc) (next_msg-Takes reads (buf ++ (b ∷ bs)) w)) e

    -- However the stream is cut into reads, a batch that `next_msg` returns is the next part of it:
    -- the bytes in the buffer and in the reads were the batch, followed by the bytes that are left in
    -- the buffer and in the reads. The batch consists of whole frames, of which exactly the last is
    -- `ReadyForQuery` if the request is complete, and none if it is not.
    pub next_msg-stream :
        (reads : List (Result IoError Bytes)) (buf : Bytes)
        → next_msg p buf reads ≡ received (ok (normal ms c)) buf' reads'
        → (buf ++ stream reads ≡ ms ++ (buf' ++ stream reads')) × Batch p ms c
    next_msg-stream reads buf e =
        let t : Takes (buf ++ stream reads) ms c buf' reads' = next_msg-Takes reads buf e in
        (t.stream_is, t.batch)

-- ===== src/Copy/Finish.antt =====
-- What `CopyInSink::finish` of src/copy_in.rs sends behind the data, and what it returns.
use may_postgres.Base.{
  ℕ, ◌≤◌, List, [], ◌∷◌, ◌++◌, map, append_assoc, append-nil, ◌≡◌, refl, sym, ap, ◌∙◌, arith,
  length, concat, Bytes, Text, Result, ok, err,
}
use may_postgres.Protocol.{IoError, command_complete}
use may_postgres.Client.Query.{rows_of_tag, Replies, next_reply}
use may_postgres.Connection.Sender
use may_postgres.Connection.Sender.{raw, CopyInMessage, message, done}
use may_postgres.Copy.{CopyInSink, send_all, flush_rest, on_row_tag, await_tag, finish}
use may_postgres.Copy.Sink.{
  payload, Longer, on_channel-sent, on_copy_data-Flushed, and_then-eq-ok, send_all-Grows,
}

on_row_tag-eq-ok :
    (replies : Replies) {n : ℕ} {rest : Replies}
    → on_row_tag (next_reply replies) ≡ (ok n, rest)
    → (tag : Text) × (replies ≡ ok (command_complete (ok tag)) ∷ rest) × (n ≡ rows_of_tag tag)
on_row_tag-eq-ok [] h = absurd (ground (arith, ap (λ p. p.0) h))
on_row_tag-eq-ok (err e ∷ replies) h = absurd (ground (arith, ap (λ p. p.0) h))
on_row_tag-eq-ok (ok (command_complete (ok tag)) ∷ replies) h =
    (tag, ap (λ p. ok (command_complete (ok tag)) ∷ p.1) h, ground (arith, ap (λ p. p.0) h))
on_row_tag-eq-ok (ok (command_complete (err e)) ∷ replies) h =
    absurd (ground (arith, ap (λ p. p.0) h))
on_row_tag-eq-ok (ok _ ∷ replies) h = absurd (ground (arith, ap (λ p. p.0) h))

module _ (copy_data_new : Bytes → Result IoError Unit) where
  -- All the data was sent, in messages that are long but for the last one, and that it is done.
  pub record Delivers (s : CopyInSink) (written : Bytes) (n : ℕ) (t : CopyInSink) : Type 0 where
    pub messages : List CopyInMessage
    pub last : List CopyInMessage
    pub tag : Text
    pub sent_is : t.sender.sent ≡ s.sender.sent ++ (messages ++ (last ++ done ∷ []))
    pub data_is : payload messages ++ payload last ≡ s.buf ++ written
    pub long : Longer 4096 messages
    pub not_empty : Longer 0 last
    pub at_most_one : length last ≤ 1
    pub answered : s.responses ≡ ok (command_complete (ok tag)) ∷ t.responses
    pub rows : n ≡ rows_of_tag tag

  -- What `finish` sends first.
  flush_rest-last :
      (buf : Bytes) (s : CopyInSink) {t : CopyInSink}
      → flush_rest copy_data_new buf s ≡ (ok tt, t)
      → (last : List CopyInMessage) × (t.sender.sent ≡ s.sender.sent ++ last)
        × (payload last ≡ buf)
        × Longer 0 last
        × (length last ≤ 1)
        × (t.responses ≡ s.responses)
  flush_rest-last [] s h = (
    [],
    ap (λ p. p.1.sender.sent) (sym h) ∙ sym (append-nil s.sender.sent),
    refl,
    tt,
    omega arith,
    ap (λ p. p.1.responses) (sym h),
  )
  flush_rest-last (b ∷ bs) s h =
      let f = on_copy_data-Flushed copy_data_new (b ∷ bs) s (copy_data_new (b ∷ bs)) h in
      (
        message (Sender.copy_data (b ∷ bs)) ∷ [],
        f.sent_is,
        append-nil (b ∷ bs),
        (omega arith, tt),
        omega arith,
        f.unread_is,
      )

  await_tag-eq-ok :
      (s : CopyInSink) {n : ℕ} {t : CopyInSink}
      → await_tag copy_data_new s ≡ (ok n, t)
      → (tag : Text) × (s.responses ≡ ok (command_complete (ok tag)) ∷ t.responses)
        × (n ≡ rows_of_tag tag)
        × (t.sender ≡ s.sender)
  await_tag-eq-ok s h =
      let (tag, answered, rows) = on_row_tag-eq-ok s.responses (ap (λ p. (p.0, p.1.responses)) h) in
      (tag, answered, rows, ap (λ p. p.1.sender) (sym h))

  -- If items are sent and the copy is finished without an error, then the messages of data hold the
  -- items one after the other, behind what the buffer held, and are followed by the one that says
  -- that the copy is done; all but the last are longer than 4096 bytes and none is empty. The number
  -- of rows is that of the tag that the server answers.
  pub finish-Delivers :
      (items : List Bytes) (s : CopyInSink) {t u : CopyInSink} {n : ℕ}
      → length s.buf ≤ 4096
      → send_all copy_data_new (map ok items) s ≡ (ok tt, t)
      → finish copy_data_new t ≡ (ok n, u)
      → Delivers s (concat items) n u
  unfolding finish
  finish-Delivers items s {t} {u} {n} small sent finished =
      let g = send_all-Grows copy_data_new items s small sent in
      let (t1, flushed, k) = and_then-eq-ok copy_data_new _ _ finished in
      let (last, sent1, data1, ne, one, unread1) = flush_rest-last t.buf t flushed in
      let (t2, told, awaited) = and_then-eq-ok copy_data_new _ _ k in
      let done_sent =
        on_channel-sent done t1.sender t1.sender.lost_after (ap (λ p. (p.0, p.1.sender)) told) in
      let (tag, answered, rows, same) = await_tag-eq-ok t2 awaited in
      record {
        messages = g.messages;
        last = last;
        tag = tag;
        sent_is =
            ap (λ c. c.sent) same
            ∙ done_sent
            ∙ ap (λ l. l ++ done ∷ []) (sent1 ∙ ap (λ l. l ++ last) g.sent)
            ∙ append_assoc (s.sender.sent ++ g.messages) last (done ∷ [])
            ∙ append_assoc s.sender.sent g.messages (last ++ done ∷ []);
        data_is = ap (λ l. payload g.messages ++ l) data1 ∙ g.bytes;
        long = g.long;
        not_empty = ne;
        at_most_one = one;
        answered = sym g.unread ∙ sym unread1 ∙ ap (λ p. p.1.responses) told ∙ answered;
        rows = rows;
      }

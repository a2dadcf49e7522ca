-- ===== src/Copy/Sink.antt =====
-- What `CopyInSink` of src/copy_in.rs sends of the data that it is given.
use may_postgres.Base.{
  ℕ, zero, suc, ◌≤◌, ◌<◌, List, [], ◌∷◌, ◌++◌, map, append_assoc, append-nil, ◌≡◌, refl, sym, ap,
  ◌∙◌, Option, none, some, ltb, arith, inl, inr, Bool-cases, ltb→lt, ltb→le, length, length-append,
  concat, Bytes, Result, ok, err,
}
use may_postgres.Protocol.{IoError}
use may_postgres.Error.{Error}
use may_postgres.Connection.Sender
use may_postgres.Connection.Sender.{raw, CopyInMessage, message, done}
use may_postgres.Copy.{
  CopySender, CopyInSink, on_channel, on_copy_data, send_data, send, and_then, send_all,
}

abbrev pub payload_of : CopyInMessage → Bytes
payload_of (message (Sender.copy_data data_)) = data_
payload_of (message (raw buf)) = []
payload_of done = []

-- The data in messages.
abbrev pub payload : List CopyInMessage → Bytes
payload [] = []
payload (m ∷ ms) = payload_of m ++ payload ms

-- Messages of data, each longer than so many bytes.
abbrev pub Longer : ℕ → List CopyInMessage → Type 0
Longer n [] = Unit
Longer n (message (Sender.copy_data data_) ∷ ms) = (n < length data_) × Longer n ms
Longer n (message (raw buf) ∷ ms) = ⊥
Longer n (done ∷ ms) = ⊥

-- From `s` to `t` these bytes were written: they are in the messages sent or still in the buffer.
pub record Grows (s : CopyInSink) (written : Bytes) (t : CopyInSink) : Type 0 where
  pub messages : List CopyInMessage
  pub sent : t.sender.sent ≡ s.sender.sent ++ messages
  pub bytes : payload messages ++ t.buf ≡ s.buf ++ written
  pub long : Longer 4096 messages
  pub small : length t.buf ≤ 4096
  pub unread : t.responses ≡ s.responses

pub payload-append : (ms ns : List CopyInMessage) → payload (ms ++ ns) ≡ payload ms ++ payload ns
payload-append [] ns = refl
payload-append (m ∷ ms) ns =
    ap (λ l. payload_of m ++ l) (payload-append ms ns)
    ∙ sym (append_assoc (payload_of m) (payload ms) (payload ns))

pub Longer-append :
    (n : ℕ) (ms ns : List CopyInMessage) → Longer n ms → Longer n ns → Longer n (ms ++ ns)
Longer-append n [] ns h k = k
Longer-append n (message (Sender.copy_data data_) ∷ ms) ns h k = (h.0, Longer-append n ms ns h.1 k)
Longer-append n (message (raw buf) ∷ ms) ns h k = absurd h
Longer-append n (done ∷ ms) ns h k = absurd h

pub Grows-trans :
    {s t u : CopyInSink} {a b : Bytes} → Grows s a t → Grows t b u → Grows s (a ++ b) u
Grows-trans {s} {t} {u} {a} {b} g h = record {
  messages = g.messages ++ h.messages;
  sent =
      h.sent ∙ ap (λ l. l ++ h.messages) g.sent ∙ append_assoc s.sender.sent g.messages h.messages;
  bytes =
      ap (λ l. l ++ u.buf) (payload-append g.messages h.messages)
      ∙ append_assoc (payload g.messages) (payload h.messages) u.buf
      ∙ ap (λ l. payload g.messages ++ l) h.bytes
      ∙ sym (append_assoc (payload g.messages) t.buf b)
      ∙ ap (λ l. l ++ b) g.bytes
      ∙ append_assoc s.buf a b;
  long = Longer-append 4096 g.messages h.messages g.long h.long;
  small = h.small;
  unread = h.unread ∙ g.unread;
}

pub on_channel-sent :
    (m : CopyInMessage) (s : CopySender) (o : Option ℕ) {u : Unit} {t : CopySender}
    → on_channel m s o ≡ (ok u, t)
    → t.sent ≡ s.sent ++ m ∷ []
on_channel-sent m s none h = ap (λ p. p.1.sent) (sym h)
on_channel-sent m s (some (suc n)) h = ap (λ p. p.1.sent) (sym h)
on_channel-sent m s (some zero) h = absurd (ground (arith, ap (λ p. p.0) h))

module _ (copy_data_new : Bytes → Result IoError Unit) where
  -- A message of these bytes was sent, and the buffer is empty.
  pub record Flushed (s : CopyInSink) (bytes : Bytes) (t : CopyInSink) : Type 0 where
    pub sent_is : t.sender.sent ≡ s.sender.sent ++ message (Sender.copy_data bytes) ∷ []
    pub buf_is : t.buf ≡ []
    pub unread_is : t.responses ≡ s.responses

  pub on_copy_data-Flushed :
      (bytes : Bytes) (s : CopyInSink) (r : Result IoError Unit) {u : Unit} {t : CopyInSink}
      → on_copy_data copy_data_new bytes (record s { buf = [] }) r ≡ (ok u, t)
      → Flushed s bytes t
  on_copy_data-Flushed bytes s (err e) h = absurd (ground (arith, ap (λ p. p.0) h))
  on_copy_data-Flushed bytes s (ok _) h = record {
    sent_is =
        on_channel-sent (message (Sender.copy_data bytes)) s.sender s.sender.lost_after
          (ap (λ p. (p.0, p.1.sender)) h);
    buf_is = ap (λ p. p.1.buf) (sym h);
    unread_is = ap (λ p. p.1.responses) (sym h);
  }

  send_data-Grows :
      (item : Bytes) (s : CopyInSink) {u : Unit} {t : CopyInSink}
      → 4096 < length (s.buf ++ item)
      → send_data copy_data_new (s.buf ++ item) s ≡ (ok u, t)
      → Grows s item t
  send_data-Grows item s {u} {t} large h =
      let f = on_copy_data-Flushed (s.buf ++ item) s (copy_data_new (s.buf ++ item)) h in
      record {
        messages = message (Sender.copy_data (s.buf ++ item)) ∷ [];
        sent = f.sent_is;
        bytes =
            ap (λ l. ((s.buf ++ item) ++ []) ++ l) f.buf_is
            ∙ append-nil ((s.buf ++ item) ++ [])
            ∙ append-nil (s.buf ++ item);
        long = (large, tt);
        small = rw f.buf_is (omega arith);
        unread = f.unread_is;
      }

  pub send-Grows :
      (item : Bytes) (s : CopyInSink) {u : Unit} {t : CopyInSink}
      → send copy_data_new item s ≡ (ok u, t)
      → Grows s item t
  unfolding send
  send-Grows item s {u} {t} h = elim (Bool-cases (ltb 4096 (length item))) [
    | inl big ↦
        send_data-Grows item s
          (omega (arith, length-append s.buf item, ltb→lt 4096 (length item) big)) (rw big at h)
    | inr little ↦ elim (Bool-cases (ltb 4096 (length (s.buf ++ item)))) [
      | inl full ↦
          send_data-Grows item s (ltb→lt 4096 (length (s.buf ++ item)) full)
            (rw (little, full) at h)
      | inr room ↦
          let kept : (ok tt, record s { buf = s.buf ++ item }) ≡ (ok u, t) =
            rw (little, room) at h in
          let same : t.buf ≡ s.buf ++ item = ap (λ p. p.1.buf) (sym kept) in
          record {
            messages = [];
            sent = ap (λ p. p.1.sender.sent) (sym kept) ∙ sym (append-nil s.sender.sent);
            bytes = same;
            long = tt;
            small = rw same (ltb→le 4096 (length (s.buf ++ item)) room);
            unread = ap (λ p. p.1.responses) (sym kept);
          }
    ]
  ]

  pub and_then-eq-ok :
      {A : Type 0} (r : Result Error Unit × CopyInSink)
      (next : CopyInSink → Result Error A × CopyInSink) {a : A} {t : CopyInSink}
      → and_then copy_data_new r next ≡ (ok a, t)
      → (s : CopyInSink) × (r ≡ (ok tt, s)) × (next s ≡ (ok a, t))
  and_then-eq-ok (ok _, s) next h = (s, refl, h)
  and_then-eq-ok (err e, s) next h = absurd (ground (arith, ap (λ p. p.0) h))

  pub send_all-Grows :
      (items : List Bytes) (s : CopyInSink) {t : CopyInSink}
      → length s.buf ≤ 4096
      → send_all copy_data_new (map ok items) s ≡ (ok tt, t)
      → Grows s (concat items) t
  unfolding send_all
  send_all-Grows [] s {t} small h = record {
    messages = [];
    sent = ap (λ p. p.1.sender.sent) (sym h) ∙ sym (append-nil s.sender.sent);
    bytes = ap (λ p. p.1.buf) (sym h) ∙ sym (append-nil s.buf);
    long = tt;
    small = rw (ap (λ p. p.1.buf) (sym h)) small;
    unread = ap (λ p. p.1.responses) (sym h);
  }
  send_all-Grows (item ∷ items) s small h =
      let (u, first, rest) = and_then-eq-ok (send copy_data_new item s) _ h in
      let g = send-Grows item s first in Grows-trans g (send_all-Grows items u g.small rest)

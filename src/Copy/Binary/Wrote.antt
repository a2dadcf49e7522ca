-- ===== src/Copy/Binary/Wrote.antt =====
-- What `BinaryCopyInWriter` of src/binary_copy.rs sends through its sink.
use mathlib.Core.Path.{subst}
use may_postgres.Base.{
  ℕ, ◌≤◌, true, List, [], ◌∷◌, ◌++◌, append_assoc, append-nil, ◌≡◌, refl, sym, ap, ◌∙◌, Option, ltb,
  ◌==◌, ==_iff, arith, inl, inr, Bool-cases, length, Bytes, Result, ok, err, Run, returns,
}
use may_postgres.Base.Endian.{be16}
use may_postgres.Protocol.{IoError}
use may_postgres.Error.{Error}
use may_postgres.Connection.Sender.{done}
use may_postgres.Copy.{CopyInSink, send, send_all}
use may_postgres.Copy.Sink.{
  payload, Grows, Grows-trans, send-Grows, and_then-eq-ok, payload-append, Longer-append,
}
use may_postgres.Copy.Finish.{Delivers, finish-Delivers}
use may_postgres.Copy.Writer.{
  minus_one16, Value, BinaryCopyInWriter, new_writer, flush_row, write, finish_writer,
}
use may_postgres.Copy.Binary.Cells.{cells_bytes, Fits}
use may_postgres.Copy.Binary.RoundTrip.{
  row_bytes, header_bytes, Writes, write_values-Writes, Writes-length,
}

abbrev pub rows_bytes : List (List (Option Bytes)) → Bytes
rows_bytes [] = []
rows_bytes (cells ∷ rows) = row_bytes cells ++ rows_bytes rows

-- The file of the binary format: the header, the rows and the trailer.
abbrev pub file_bytes : List (List (Option Bytes)) → Bytes
file_bytes rows = header_bytes ++ (rows_bytes rows ++ be16 minus_one16)

Grows-refl : (s : CopyInSink) → length s.buf ≤ 4096 → Grows s [] s
Grows-refl s small = record {
  messages = [];
  sent = sym (append-nil s.sender.sent);
  bytes = sym (append-nil s.buf);
  long = tt;
  small = small;
  unread = refl;
}

-- Bytes went to the sink; with those left in the buffer they are the old ones and the new ones.
record Extends (w : BinaryCopyInWriter) (added : Bytes) (v : BinaryCopyInWriter) : Type 0 where
  moved : Bytes
  grows : Grows w.sink moved v.sink
  bytes : moved ++ v.buf ≡ w.buf ++ added
  same_types : v.types ≡ w.types

module _ (copy_data_new : Bytes → Result IoError Unit) where
  -- Calls of `write` that succeed, with the values of their rows.
  pub data Wrote
      : BinaryCopyInWriter → List (List (Option Bytes)) → BinaryCopyInWriter → Type 0 where
    no_row : {w : BinaryCopyInWriter} → Wrote w [] w
    row :
        {w u v : BinaryCopyInWriter} {rows : List (List (Option Bytes))} (values : List Value)
        (cells : List (Option Bytes))
        → Writes values w.types cells
        → Fits cells
        → write copy_data_new values w ≡ (returns (ok tt), u)
        → Wrote u rows v
        → Wrote w (cells ∷ rows) v

  send_row :
      (w u : BinaryCopyInWriter) (r : Result Error Unit × CopyInSink)
      → send copy_data_new w.buf w.sink ≡ r
      → Run.returns r.0 ≡ returns (ok tt)
      → record w { sink = r.1; buf = [] } ≡ u
      → Extends w [] u
  send_row w u (err e, sink) same h k = absurd (ground (arith, h))
  send_row w u (ok _, sink) same h k = record {
    moved = w.buf;
    grows =
        subst (Grows w.sink w.buf) (ap (λ p. p.sink) k)
          (send-Grows copy_data_new w.buf w.sink same);
    bytes = ap (λ p. w.buf ++ p.buf) (sym k);
    same_types = ap (λ p. p.types) (sym k);
  }

  flush_row-Extends :
      (w u : BinaryCopyInWriter)
      → length w.sink.buf ≤ 4096
      → flush_row copy_data_new w ≡ (returns (ok tt), u)
      → Extends w [] u
  flush_row-Extends w u small h = elim (Bool-cases (ltb 4096 (length w.buf))) [
    | inl full ↦
        send_row w u (send copy_data_new w.buf w.sink) refl (ap (λ p. p.0) (rw full at h))
          (ap (λ p. p.1) (rw full at h))
    | inr room ↦
        let kept : w ≡ u = ap (λ p. p.1) (rw room at h) in
        subst (Extends w []) kept (record {
          moved = [];
          grows = Grows-refl w.sink small;
          bytes = sym (append-nil w.buf);
          same_types = refl;
        })
  ]

  write-Extends :
      (w u : BinaryCopyInWriter) (values : List Value) (cells : List (Option Bytes))
      → length w.sink.buf ≤ 4096
      → Writes values w.types cells
      → Fits cells
      → write copy_data_new values w ≡ (returns (ok tt), u)
      → Extends w (row_bytes cells) u
  unfolding write
  write-Extends w u values cells small writes fits h =
      let (same, as_many) = Writes-length values w.types cells writes in
      let equal : length values == length w.types ≡ true = (==_iff _ _).1 as_many in
      let all =
        write_values-Writes 0 values w.types cells (w.buf ++ be16 (length w.types)) writes fits in
      let v : BinaryCopyInWriter = record w {
        buf = (w.buf ++ be16 (length w.types)) ++ cells_bytes cells;
      } in
      let x = flush_row-Extends v u small (rw (equal, all) at h) in
      record {
        moved = x.moved;
        grows = x.grows;
        bytes =
            x.bytes
            ∙ append-nil v.buf
            ∙ append_assoc w.buf (be16 (length w.types)) (cells_bytes cells)
            ∙ ap (λ n. w.buf ++ (be16 n ++ cells_bytes cells)) same;
        same_types = x.same_types;
      }

  Wrote-Extends :
      {w v : BinaryCopyInWriter} {rows : List (List (Option Bytes))}
      → length w.sink.buf ≤ 4096
      → Wrote w rows v
      → Extends w (rows_bytes rows) v
  Wrote-Extends small (no_row {w}) = record {
    moved = [];
    grows = Grows-refl w.sink small;
    bytes = sym (append-nil w.buf);
    same_types = refl;
  }
  Wrote-Extends small (row {w} {u} {v} {rows} values cells writes fits written more) =
      let x = write-Extends w u values cells small writes fits written in
      let y = Wrote-Extends x.grows.small more in
      record {
        moved = x.moved ++ y.moved;
        grows = Grows-trans x.grows y.grows;
        bytes =
            append_assoc x.moved y.moved v.buf
            ∙ ap (λ b. x.moved ++ b) y.bytes
            ∙ sym (append_assoc x.moved u.buf (rows_bytes rows))
            ∙ ap (λ b. b ++ rows_bytes rows) x.bytes
            ∙ append_assoc w.buf (row_bytes cells) (rows_bytes rows);
        same_types = y.same_types ∙ x.same_types;
      }

  Delivers-after :
      {s t u : CopyInSink} {a b : Bytes} {n : ℕ}
      → Grows s a t
      → Delivers copy_data_new t b n u
      → Delivers copy_data_new s (a ++ b) n u
  Delivers-after {s} {t} {u} {a} {b} g d = record {
    messages = g.messages ++ d.messages;
    last = d.last;
    tag = d.tag;
    sent_is =
        d.sent_is
        ∙ ap (λ l. l ++ (d.messages ++ (d.last ++ done ∷ []))) g.sent
        ∙ append_assoc s.sender.sent g.messages (d.messages ++ (d.last ++ done ∷ []))
        ∙ ap (λ l. s.sender.sent ++ l)
            (sym (append_assoc g.messages d.messages (d.last ++ done ∷ [])));
    data_is =
        ap (λ l. l ++ payload d.last) (payload-append g.messages d.messages)
        ∙ append_assoc (payload g.messages) (payload d.messages) (payload d.last)
        ∙ ap (λ l. payload g.messages ++ l) d.data_is
        ∙ sym (append_assoc (payload g.messages) t.buf b)
        ∙ ap (λ l. l ++ b) g.bytes
        ∙ append_assoc s.buf a b;
    long = Longer-append 4096 g.messages d.messages g.long d.long;
    not_empty = d.not_empty;
    at_most_one = d.at_most_one;
    answered = sym g.unread ∙ d.answered;
    rows = d.rows;
  }

  -- If rows are written and the writer is finished without an error, then exactly the file of the
  -- rows has gone through the sink: header, rows and trailer, in messages of data followed by the one
  -- that says that the copy is done, and the number of rows is that of the tag that the server
  -- answers. Every value is shorter than 2 ^ 31 bytes.
  pub finish_writer-Delivers :
      (sink : CopyInSink) (types : List ℕ) (rows : List (List (Option Bytes)))
      {v : BinaryCopyInWriter} {n : ℕ} {t : CopyInSink}
      → length sink.buf ≤ 4096
      → Wrote (new_writer sink types) rows v
      → finish_writer copy_data_new v ≡ (ok n, t)
      → Delivers copy_data_new sink (file_bytes rows) n t
  unfolding finish_writer send_all
  finish_writer-Delivers sink types rows {v} {n} {t} small wrote finished =
      let x = Wrote-Extends small wrote in
      let trailer = be16 minus_one16 in
      let (s, sent, ended) = and_then-eq-ok copy_data_new _ _ finished in
      let g = send-Grows copy_data_new (v.buf ++ trailer) v.sink sent in
      let d = finish-Delivers copy_data_new [] s g.small refl ended in
      let all = Delivers-after x.grows (Delivers-after g d) in
      subst (λ b. Delivers copy_data_new sink b n t)
        (ap (λ l. x.moved ++ l) (append-nil (v.buf ++ trailer))
          ∙ sym (append_assoc x.moved v.buf trailer)
          ∙ ap (λ l. l ++ trailer) x.bytes
          ∙ append_assoc header_bytes (rows_bytes rows) trailer)
        all

-- ===== src/Tests/Copying.antt =====
-- Rows of two columns in the binary format, through a sink and back.
use may_postgres.Base.{
  ℕ, true, false, List, [], ◌∷◌, ◌++◌, map, concat, split, ◌≡◌, refl, Option, none, some, arith,
  Bytes, codes, Result, ok, returns, panics,
}
use may_postgres.Base.Number.{parse_unsigned}
use may_postgres.Base.Endian.{be16, number_from}
use may_postgres.Client.Query.{rows_of_tag}
use may_postgres.Protocol.{IoError, command_complete, copy_data}
use may_postgres.Error.{foreign}
use may_postgres.Row.{FromSql}
use may_postgres.Row.Lookup.{Returns}
use may_postgres.Connection.Sender
use may_postgres.Connection.Sender.{message, done}
use may_postgres.Copy.{CopyInSink, send_all, finish}
use may_postgres.Copy.Finish.{Delivers, finish-Delivers}
use may_postgres.Copy.Writer.{
  null, bytes, Value, write_values, new_writer, BinaryCopyInWriter, write, finish_writer,
}
use may_postgres.Copy.Binary.{BinaryCopyOutStream, BinaryCopyOutRow, next, try_get}
use may_postgres.Copy.Binary.Bounds.{SafeItem, Overflows, next-SafeItem}
use may_postgres.Copy.Binary.Rows.{next-try_get}
use may_postgres.Copy.Binary.RoundTrip.{row_bytes, opening, RowRead, Writes, next-write_values}
use may_postgres.Copy.Binary.Wrote.{no_row, row, file_bytes, finish_writer-Delivers}

abbrev takes_all : Bytes → Result IoError Unit
takes_all data_ = ok tt

abbrev sink : CopyInSink
sink = record {
  sender = record { sent = []; lost_after = none };
  responses = ok (command_complete (ok (codes "COPY 1"))) ∷ [];
  buf = [];
}

abbrev items : List Bytes
items = (1 ∷ 2 ∷ []) ∷ [] ∷ (3 ∷ []) ∷ []

abbrev filled : CopyInSink
filled = record sink { buf = 1 ∷ 2 ∷ 3 ∷ [] }

sent_all : send_all takes_all (map ok items) sink ≡ (ok tt, filled)
unfolding send_all
sent_all = refl

abbrev done_sink : CopyInSink
done_sink = record {
  sender = record {
    sent = message (Sender.copy_data (1 ∷ 2 ∷ 3 ∷ [])) ∷ done ∷ [];
    lost_after = none;
  };
  responses = [];
  buf = [];
}

finished : finish takes_all filled ≡ (ok 1, done_sink)
unfolding finish rows_of_tag parse_unsigned split
finished = refl

finish-Delivers_example : Delivers takes_all sink (concat items) 1 done_sink
finish-Delivers_example = finish-Delivers takes_all items sink (omega arith) sent_all finished

abbrev cells : List (Option Bytes)
cells = some (7 ∷ 8 ∷ []) ∷ none ∷ []

abbrev values : List Value
values = (λ ty. bytes (7 ∷ 8 ∷ [])) ∷ (λ ty. null) ∷ []

abbrev types : List ℕ
types = 21 ∷ 25 ∷ []

values-Writes : Writes values types cells
values-Writes = (refl, (refl, tt))

next-write_values_example :
    (write_values 0 values types (opening none ++ be16 2)
      ≡ (ok tt, opening none ++ row_bytes cells))
    × RowRead cells
        (next true (record {
          stream = ok (copy_data (opening none ++ row_bytes cells)) ∷ [];
          types = types;
          header = none;
        })).0
next-write_values_example =
    next-write_values true none values types cells [] (λ e. absurd (ground arith)) values-Writes
      (omega arith, tt) (omega arith)

abbrev reader : BinaryCopyOutStream
reader = record {
  stream = ok (copy_data (row_bytes cells)) ∷ [];
  types = types;
  header = some false;
}

-- Cut short behind the length of the second value.
abbrev cut_reader : BinaryCopyOutStream
cut_reader = record reader { stream = ok (copy_data (0 ∷ 2 ∷ 0 ∷ 0 ∷ 0 ∷ 9 ∷ 1 ∷ [])) ∷ [] }

next-SafeItem_example : SafeItem (Overflows true cut_reader) (next true cut_reader).0
next-SafeItem_example = next-SafeItem true cut_reader (omega arith)

abbrev any_bytes : FromSql (Option Bytes)
any_bytes = record {
  accepts = λ ty. true;
  wrong_type = foreign 0;
  from_sql_nullable = λ ty bs. ok bs;
}

abbrev read_row : BinaryCopyOutRow
read_row = record {
  buf = row_bytes cells;
  ranges = some (record { start = 6; end = 8 }) ∷ none ∷ [];
  types = types;
}

was_read : (next true reader).0 ≡ returns (some (ok read_row))
unfolding next number_from
was_read = refl

next-try_get_example : Returns any_bytes (try_get any_bytes 1 read_row)
next-try_get_example = next-try_get any_bytes true reader read_row 1 (omega arith) was_read

abbrev writer : BinaryCopyInWriter
writer = record (new_writer sink types) { buf = opening none ++ row_bytes cells }

written : write takes_all values (new_writer sink types) ≡ (returns (ok tt), writer)
unfolding write
written = refl

abbrev file_sink : CopyInSink
file_sink = record {
  sender = record {
    sent = message (Sender.copy_data (file_bytes (cells ∷ []))) ∷ done ∷ [];
    lost_after = none;
  };
  responses = [];
  buf = [];
}

file_finished : finish_writer takes_all writer ≡ (ok 1, file_sink)
unfolding finish_writer may_postgres.Copy.send finish rows_of_tag parse_unsigned split
file_finished = refl

finish_writer-Delivers_example : Delivers takes_all sink (file_bytes (cells ∷ [])) 1 file_sink
finish_writer-Delivers_example =
    finish_writer-Delivers takes_all sink types (cells ∷ []) (omega arith)
      (row values cells values-Writes (omega arith, tt) written no_row) file_finished

-- Object identifiers, and the greatest `i16` as the number of values.
abbrev greatest_reader : BinaryCopyOutStream
greatest_reader = record {
  stream = ok (copy_data (127 ∷ 255 ∷ [])) ∷ [];
  types = types;
  header = some true;
}

overflows : (next true greatest_reader).0 ≡ panics
unfolding next number_from
overflows = refl

-- ===== src/Copy/Writer.antt =====
-- src/binary_copy.rs: the binary format of COPY and its writer.
use may_postgres.Base.{
  ℕ, suc, ◌+◌, ◌-◌, ◌^◌, List, [], ◌∷◌, ◌++◌, ltb, ◌==◌, if◌then◌else◌, length, Bytes, codes,
  Result, ok, err, Run, returns, panics,
}
use may_postgres.Base.Endian.{be16, be32}
use may_postgres.Protocol.{IoError, invalid_input}
use may_postgres.Error.{Error, Cause, encode_error, to_sql_error}
use may_postgres.Copy
use may_postgres.Copy.{CopyInSink, out_next}

abbrev pub magic : Bytes
magic = codes "PGCOPY" ++ 10 ∷ 255 ∷ 13 ∷ 10 ∷ 0 ∷ []

abbrev pub magic_len : ℕ
magic_len = 11

abbrev pub header_len : ℕ
header_len = magic_len + 4 + 4

-- What `to_sql_checked` of a value does for a type: it is null, it writes bytes, or it fails with
-- these bytes written.
pub data Written : Type 0 where
  null : Written
  bytes : Bytes → Written
  broken : Cause → Bytes → Written

abbrev pub Value : Type 0
Value = ℕ → Written

pub record BinaryCopyInWriter : Type 0 where
  pub sink : CopyInSink
  pub types : List ℕ
  pub buf : Bytes

-- `BinaryCopyInWriter::new`
abbrev pub new_writer : CopyInSink → List ℕ → BinaryCopyInWriter
new_writer sink types = record { sink = sink; types = types; buf = magic ++ (be32 0 ++ be32 0) }

-- -1 as an `i16` and as an `i32`.
abbrev pub minus_one16 : ℕ
minus_one16 = 2 ^ 16 - 1

abbrev pub minus_one32 : ℕ
minus_one32 = 2 ^ 32 - 1

abbrev pub too_long : Error
too_long = encode_error (record {
  kind = invalid_input;
  text = codes "out of range integral type conversion attempted";
})

-- The body of the loop of `write_raw`: the length stands where it was left free.
abbrev on_written :
    ℕ → Bytes → Written → (Bytes → Result Error Unit × Bytes) → Result Error Unit × Bytes
on_written i buf null next = next (buf ++ be32 minus_one32)
on_written i buf (bytes bs) next =
    if ltb (length bs) (2 ^ 31)
    then next (buf ++ (be32 (length bs) ++ bs))
    else (err too_long, buf ++ (be32 0 ++ bs))
on_written i buf (broken e bs) next = (err (to_sql_error e i), buf ++ (be32 0 ++ bs))

unfoldable pub write_values : ℕ → List Value → List ℕ → Bytes → Result Error Unit × Bytes
write_values i [] types buf = (ok tt, buf)
write_values i (value ∷ values) [] buf = (ok tt, buf)
write_values i (value ∷ values) (ty ∷ types) buf =
    on_written i buf (value ty) (write_values (suc i) values types)

module _ (copy_data_new : Bytes → Result IoError Unit) where
  abbrev pub flush_row : BinaryCopyInWriter → Run (Result Error Unit) × BinaryCopyInWriter
  flush_row w =
      if ltb 4096 (length w.buf)
      then (let (r, sink) = Copy.send copy_data_new w.buf w.sink in
          (returns r, record w { sink = sink; buf = [] }))
      else (returns (ok tt), w)

  abbrev pub after_values :
      BinaryCopyInWriter → Result Error Unit × Bytes → Run (Result Error Unit) × BinaryCopyInWriter
  after_values w (err e, buf) = (returns (err e), record w { buf = buf })
  after_values w (ok _, buf) = flush_row (record w { buf = buf })

  -- `write_raw`; the assertion on the number of values is a panic.
  unfoldable pub write :
      List Value → BinaryCopyInWriter → Run (Result Error Unit) × BinaryCopyInWriter
  unfolding write_values
  write values w =
      if length values == length w.types
      then after_values w (write_values 0 values w.types (w.buf ++ be16 (length w.types)))
      else (panics, w)

  -- `BinaryCopyInWriter::finish`
  unfoldable pub finish_writer : BinaryCopyInWriter → Result Error ℕ × CopyInSink
  finish_writer w =
      Copy.and_then copy_data_new (Copy.send copy_data_new (w.buf ++ be16 minus_one16) w.sink)
        (Copy.finish copy_data_new)

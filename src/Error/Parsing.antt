-- ===== src/Error/Parsing.antt =====
-- `DbError::parse` of src/error/mod.rs.
use may_postgres.Base.{
  ℕ, ◌-◌, ◌^◌, Option, none, some, if◌then◌else◌, ◌==◌, Text, codes, Result, ok, err, ◌>>=◌,
}
use may_postgres.Base.Number.{parse_unsigned}
use may_postgres.Protocol.{IoError, invalid_input, Items, finished, item, failed, ErrorField}
use may_postgres.Error.SqlState.{SqlState, from_code}
use may_postgres.Error.Severity.{Severity, from_str}

pub data ErrorPosition : Type 0 where
  original : ℕ → ErrorPosition
  internal : ℕ → Text → ErrorPosition

pub record DbError : Type 0 where
  pub severity : Text
  pub parsed_severity : Option Severity
  pub code : SqlState
  pub message : Text
  pub detail : Option Text
  pub hint : Option Text
  pub position : Option ErrorPosition
  pub where_ : Option Text
  pub schema : Option Text
  pub table : Option Text
  pub column : Option Text
  pub datatype : Option Text
  pub constraint : Option Text
  pub file : Option Text
  pub line : Option ℕ
  pub routine : Option Text

-- The local variables of `parse`.
pub record Locals : Type 0 where
  pub severity : Option Text
  pub parsed_severity : Option Severity
  pub code : Option SqlState
  pub message : Option Text
  pub detail : Option Text
  pub hint : Option Text
  pub normal_position : Option ℕ
  pub internal_position : Option ℕ
  pub internal_query : Option Text
  pub where_ : Option Text
  pub schema : Option Text
  pub table : Option Text
  pub column : Option Text
  pub datatype : Option Text
  pub constraint : Option Text
  pub file : Option Text
  pub line : Option ℕ
  pub routine : Option Text

abbrev pub no_locals : Locals
no_locals = record {
  severity = none;
  parsed_severity = none;
  code = none;
  message = none;
  detail = none;
  hint = none;
  normal_position = none;
  internal_position = none;
  internal_query = none;
  where_ = none;
  schema = none;
  table = none;
  column = none;
  datatype = none;
  constraint = none;
  file = none;
  line = none;
  routine = none;
}

abbrev pub invalid : Text → IoError
invalid text = record { kind = invalid_input; text = text }

abbrev pub u32_max : ℕ
u32_max = 2 ^ 32 - 1

-- `.ok_or_else(|| io::Error::new(io::ErrorKind::InvalidInput, text))?`
abbrev pub ok_or : {A : Type 0} → Text → Option A → Result IoError A
ok_or text none = err (invalid text)
ok_or text (some a) = ok a

-- The value of `position`.
unfoldable pub position_of :
    Option ℕ → Option ℕ → Option Text → Result IoError (Option ErrorPosition)
position_of (some position) internal_position internal_query = ok (some (original position))
position_of none none internal_query = ok none
position_of none (some position) internal_query = do
  query ← ok_or (codes "`q` field missing but `p` field present") internal_query
  ok (some (internal position query))

-- The result, from the local variables.
unfoldable pub build : Locals → Result IoError DbError
build f = do
  severity ← ok_or (codes "`S` field missing") f.severity
  code ← ok_or (codes "`C` field missing") f.code
  message ← ok_or (codes "`M` field missing") f.message
  position ← position_of f.normal_position f.internal_position f.internal_query
  ok (record {
    severity = severity;
    parsed_severity = f.parsed_severity;
    code = code;
    message = message;
    detail = f.detail;
    hint = f.hint;
    position = position;
    where_ = f.where_;
    schema = f.schema;
    table = f.table;
    column = f.column;
    datatype = f.datatype;
    constraint = f.constraint;
    file = f.file;
    line = f.line;
    routine = f.routine;
  })

-- The `match` of the loop.
unfoldable pub on_field : ℕ → Text → Locals → Result IoError Locals
on_field type_ value f =
    if type_ == b'S'
    then ok (record f { severity = some value })
    else if type_ == b'C'
    then ok (record f { code = some (from_code value) })
    else if type_ == b'M'
    then ok (record f { message = some value })
    else if type_ == b'D'
    then ok (record f { detail = some value })
    else if type_ == b'H'
    then ok (record f { hint = some value })
    else if type_ == b'P'
    then (do
      n ← ok_or (codes "`P` field did not contain an integer") (parse_unsigned u32_max value)
      ok (record f { normal_position = some n }))
    else if type_ == b'p'
    then (do
      n ← ok_or (codes "`p` field did not contain an integer") (parse_unsigned u32_max value)
      ok (record f { internal_position = some n }))
    else if type_ == b'q'
    then ok (record f { internal_query = some value })
    else if type_ == b'W'
    then ok (record f { where_ = some value })
    else if type_ == b's'
    then ok (record f { schema = some value })
    else if type_ == b't'
    then ok (record f { table = some value })
    else if type_ == b'c'
    then ok (record f { column = some value })
    else if type_ == b'd'
    then ok (record f { datatype = some value })
    else if type_ == b'n'
    then ok (record f { constraint = some value })
    else if type_ == b'F'
    then ok (record f { file = some value })
    else if type_ == b'L'
    then (do
      n ← ok_or (codes "`L` field did not contain an integer") (parse_unsigned u32_max value)
      ok (record f { line = some n }))
    else if type_ == b'R'
    then ok (record f { routine = some value })
    else if type_ == b'V'
    then (do
      v ← ok_or (codes "`V` field contained an invalid value") (from_str value)
      ok (record f { parsed_severity = some v }))
    else ok f

-- The loop over the fields.
unfoldable pub collect : Items ErrorField → Locals → Result IoError Locals
collect finished f = ok f
collect (failed e) f = err e
collect (item field fields) f = on_field field.type_ field.value f >>= collect fields

unfoldable pub parse : Items ErrorField → Result IoError DbError
parse fields = do f ← collect fields no_locals; build f

-- ===== src/Error.antt =====
-- src/error/mod.rs: the client's errors, their kinds, their causes and the constructors.
pub mod Severity
pub mod SqlState
pub mod Parsing
pub mod Fields
use may_postgres.Base.{ℕ, ◌≡◌, refl, Option, none, some, Bytes, Text, Result, ok, err}
use may_postgres.Protocol.{IoError, Items, ErrorField}
use may_postgres.Error.Parsing
use may_postgres.Error.Parsing.{DbError}

pub data Kind : Type 0 where
  io unexpected_message : Kind
  to_sql from_sql : ℕ → Kind
  column : Text → Kind
  closed db parse encode authentication config_parse config row_count connect : Kind

-- The boxed cause: an error of the client's own types, a bare message (the one of `Parser::eat` is
-- the byte, the character expected and the one found), a `Utf8Error`, whose position is left out, or an error of a conversion or a crate that
-- the client hands on unread.
pub data Cause : Type 0 where
  io_error : IoError → Cause
  db_error : DbError → Cause
  message : Text → Cause
  unknown_option invalid_value : Text → Cause
  unexpected_character : ℕ → ℕ → ℕ → Cause
  utf8_error : Cause
  foreign : ℕ → Cause

pub record Error : Type 0 where
  pub kind : Kind
  pub cause : Option Cause

abbrev pub closed_error : Error
closed_error = record { kind = closed; cause = none }

abbrev pub unexpected_message_error : Error
unexpected_message_error = record { kind = unexpected_message; cause = none }

abbrev pub parse_error : IoError → Error
parse_error e = record { kind = parse; cause = some (io_error e) }

abbrev pub encode_error : IoError → Error
encode_error e = record { kind = encode; cause = some (io_error e) }

abbrev pub io_failure : IoError → Error
io_failure e = record { kind = io; cause = some (io_error e) }

abbrev pub connect_error : IoError → Error
connect_error e = record { kind = connect; cause = some (io_error e) }

abbrev pub authentication_error : Cause → Error
authentication_error e = record { kind = authentication; cause = some e }

abbrev pub config_parse_error : Cause → Error
config_parse_error e = record { kind = config_parse; cause = some e }

abbrev pub config_error : Cause → Error
config_error e = record { kind = config; cause = some e }

abbrev pub row_count_error : Error
row_count_error = record { kind = row_count; cause = none }

abbrev pub column_error : Text → Error
column_error name = record { kind = column name; cause = none }

abbrev pub to_sql_error : Cause → ℕ → Error
to_sql_error e idx = record { kind = to_sql idx; cause = some e }

abbrev pub from_sql_error : Cause → ℕ → Error
from_sql_error e idx = record { kind = from_sql idx; cause = some e }

-- `Error::db`
abbrev of_parsed : Result IoError DbError → Error
of_parsed (ok e) = record { kind = db; cause = some (db_error e) }
of_parsed (err e) = record { kind = parse; cause = some (io_error e) }

pub db_failure : Items ErrorField → Error
db_failure fields = of_parsed (Parsing.parse fields)

-- `Error::code`
abbrev cause_code : Option Cause → Option SqlState.SqlState
cause_code (some (db_error e)) = some e.code
cause_code _ = none

pub code : Error → Option SqlState.SqlState
code e = cause_code e.cause

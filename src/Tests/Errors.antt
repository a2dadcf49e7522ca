-- ===== src/Tests/Errors.antt =====
-- src/error on the fields of one error response.
use may_postgres.Base.{none, some, ◌≡◌, ◌↔◌, refl, text_eq, codes, ok}
use may_postgres.Base.Number.{parse_unsigned, digits}
use may_postgres.Protocol.{Items, finished, item, ErrorField}
use may_postgres.Error.Severity
use may_postgres.Error.Severity.{Severity, fatal, error, from_str, from_str_iff}
use may_postgres.Error.SqlState.{sqlstate_map, get, or_owned, from_code, code-from_code}
use may_postgres.Error.SqlState.Syntax.{undefined_table}
use may_postgres.Error.Parsing.{DbError, original, on_field, collect, position_of, build, parse}
use may_postgres.Error.Fields.{Describes, parse-Describes}

from_str_iff_example :
    (from_str (codes "FATAL") ≡ some fatal) ↔ (codes "FATAL" ≡ Severity.fmt fatal)
from_str_iff_example = from_str_iff (codes "FATAL") fatal

code-from_code_example : (from_code (codes "42P01")).code ≡ codes "42P01"
code-from_code_example = code-from_code (codes "42P01")

known : from_code (codes "42P01") ≡ undefined_table
unfolding from_code get or_owned sqlstate_map text_eq
known = refl

-- The message is sent twice.
abbrev fields : Items ErrorField
fields =
    item (record { type_ = b'S'; value = codes "ERROR" })
      (item (record { type_ = b'V'; value = codes "ERROR" })
        (item (record { type_ = b'C'; value = codes "99999" })
          (item (record { type_ = b'M'; value = codes "first" })
            (item (record { type_ = b'M'; value = codes "second" })
              (item (record { type_ = b'P'; value = codes "17" }) finished)))))

abbrev parsed : DbError
parsed = record {
  severity = codes "ERROR";
  parsed_severity = some error;
  code = from_code (codes "99999");
  message = codes "second";
  detail = none;
  hint = none;
  position = some (original 17);
  where_ = none;
  schema = none;
  table = none;
  column = none;
  datatype = none;
  constraint = none;
  file = none;
  line = none;
  routine = none;
}

parses : parse fields ≡ ok parsed
unfolding parse collect on_field build position_of from_str text_eq parse_unsigned digits
parses = refl

parse-Describes_example : Describes fields parsed
parse-Describes_example = parse-Describes fields parsed parses

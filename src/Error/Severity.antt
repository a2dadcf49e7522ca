-- ===== src/Error/Severity.antt =====
-- `Severity` of src/error/mod.rs.
use may_postgres.Base.{
  Text, codes, text_eq, text_eq_iff, Option, none, some, ◌≡◌, ◌↔◌, refl, arith, if◌then◌else◌,
}

pub data Severity : Type 0 where
  panic fatal error warning notice debug info log : Severity

-- `Display`
unfoldable pub fmt : Severity → Text
fmt panic = codes "PANIC"
fmt fatal = codes "FATAL"
fmt error = codes "ERROR"
fmt warning = codes "WARNING"
fmt notice = codes "NOTICE"
fmt debug = codes "DEBUG"
fmt info = codes "INFO"
fmt log = codes "LOG"

unfoldable pub from_str : Text → Option Severity
from_str s =
    if text_eq s (codes "PANIC")
    then some panic
    else if text_eq s (codes "FATAL")
    then some fatal
    else if text_eq s (codes "ERROR")
    then some error
    else if text_eq s (codes "WARNING")
    then some warning
    else if text_eq s (codes "NOTICE")
    then some notice
    else if text_eq s (codes "DEBUG")
    then some debug
    else if text_eq s (codes "INFO")
    then some info
    else if text_eq s (codes "LOG")
    then some log
    else none

from_str-fmt : (s : Severity) → from_str (fmt s) ≡ some s
unfolding from_str fmt text_eq
from_str-fmt panic = refl
from_str-fmt _ = refl

fmt-from_str : (s : Text) (v : Severity) → from_str s ≡ some v → s ≡ fmt v
unfolding from_str fmt
fmt-from_str s v e = ground (
  arith,
  text_eq_iff s (codes "PANIC"),
  text_eq_iff s (codes "FATAL"),
  text_eq_iff s (codes "ERROR"),
  text_eq_iff s (codes "WARNING"),
  text_eq_iff s (codes "NOTICE"),
  text_eq_iff s (codes "DEBUG"),
  text_eq_iff s (codes "INFO"),
  text_eq_iff s (codes "LOG"),
)

-- A text is read as a severity exactly if it is what that severity prints.
pub from_str_iff : (s : Text) (v : Severity) → (from_str s ≡ some v) ↔ (s ≡ fmt v)
from_str_iff s v = (fmt-from_str s v, λ e. rw e (from_str-fmt v))

-- ===== src/Error/SqlState/Defs.antt =====
-- The type of src/error/sqlstate.rs.
use may_postgres.Base.{String, Text, codes}

-- `SqlState` is its code, `code()`.
pub record SqlState : Type 0 where
  pub code : Text

-- `SqlState(Cow::Borrowed(s))`
abbrev pub borrowed : String → SqlState
borrowed s = record { code = codes s }

-- ===== src/Transaction/Builder.antt =====
-- The text of START TRANSACTION in src/transaction_builder.rs.
use may_postgres.Base.{
  Bool, List, [], ◌∷◌, ◌++◌, ◌≡◌, refl, ap, ◌∙◌, append-nil, append_assoc, if◌then◌else◌, Option,
  none, some, Text, codes,
}
use may_postgres.Transaction.{
  IsolationLevel, TransactionBuilder, read_uncommitted, read_committed, repeatable_read,
  serializable, level_text, start_query,
}

abbrev level_modes : Option IsolationLevel → List Text
level_modes none = []
level_modes (some read_uncommitted) = codes " ISOLATION LEVEL READ UNCOMMITTED" ∷ []
level_modes (some read_committed) = codes " ISOLATION LEVEL READ COMMITTED" ∷ []
level_modes (some repeatable_read) = codes " ISOLATION LEVEL REPEATABLE READ" ∷ []
level_modes (some serializable) = codes " ISOLATION LEVEL SERIALIZABLE" ∷ []

abbrev option_modes : Text → Text → Option Bool → List Text
option_modes on off none = []
option_modes on off (some b) = (if b then on else off) ∷ []

abbrev with_options : List Text → Option Bool → Option Bool → List Text
with_options levels r d =
    levels
    ++ option_modes (codes " READ ONLY") (codes " READ WRITE") r
    ++ option_modes (codes " DEFERRABLE") (codes " NOT DEFERRABLE") d

-- The modes that are set: isolation level, access mode, deferrability.
abbrev pub modes : TransactionBuilder → List Text
modes b = with_options (level_modes b.isolation_level) b.read_only b.deferrable

-- A comma between any two.
abbrev pub comma_separated : List Text → Text
comma_separated [] = []
comma_separated (mode ∷ []) = mode
comma_separated (mode ∷ mode2 ∷ rest) = mode ++ (codes "," ++ comma_separated (mode2 ∷ rest))

-- The isolation level as the source puts it together.
abbrev levels_of : Option IsolationLevel → List Text
levels_of none = []
levels_of (some level) = (codes " ISOLATION LEVEL " ++ level_text level) ∷ []

levels_of-level_modes : (l : Option IsolationLevel) → levels_of l ≡ level_modes l
levels_of-level_modes none = refl
levels_of-level_modes (some read_uncommitted) = refl
levels_of-level_modes (some read_committed) = refl
levels_of-level_modes (some repeatable_read) = refl
levels_of-level_modes (some serializable) = refl

by_case :
    (l : Option IsolationLevel) (r d : Option Bool)
    → start_query (record { isolation_level = l; read_only = r; deferrable = d })
      ≡ codes "START TRANSACTION" ++ comma_separated (with_options (levels_of l) r d)
unfolding start_query
by_case none none none = simp (append-nil, append_assoc)
by_case none none (some d) = refl
by_case none (some r) none = refl
by_case none (some r) (some d) = simp (append-nil, append_assoc)
by_case (some l) none none = simp (append-nil, append_assoc)
by_case (some l) none (some d) = simp (append-nil, append_assoc)
by_case (some l) (some r) none = simp (append-nil, append_assoc)
by_case (some l) (some r) (some d) = simp (append-nil, append_assoc)

-- The query is START TRANSACTION with the modes that are set, isolation level first
-- and deferrability last, and a comma between any two of them.
pub start_query-modes :
    (b : TransactionBuilder)
    → start_query b ≡ codes "START TRANSACTION" ++ comma_separated (modes b)
start_query-modes b =
    by_case b.isolation_level b.read_only b.deferrable
    ∙ ap
        (λ levels.
          codes "START TRANSACTION"
          ++ comma_separated (with_options levels b.read_only b.deferrable))
        (levels_of-level_modes b.isolation_level)

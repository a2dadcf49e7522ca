-- ===== src/Transaction.antt =====
-- src/transaction.rs and the start of a transaction in src/client.rs and src/transaction_builder.rs.
pub mod Savepoints
pub mod Nesting
pub mod Effects
pub mod Builder
use may_postgres.Base.{
  ℕ, ◌+◌, ◌%◌, ◌^◌, Bool, true, false, not, [], ◌∷◌, ◌++◌, Option, none, some, ◌==◌, if◌then◌else◌,
  Text, codes, Result, ok, err,
}
use may_postgres.Base.Decimal.{decimal}
use may_postgres.Error.{Error}

-- What a transaction needs of its client: the text of a query goes out, and the reply is success or
-- an error.
pub record Client : Type 1 where
  pub State : Type 0
  pub batch_execute : Text → State → Result Error Unit × State

pub record Transaction : Type 0 where
  pub depth : ℕ
  pub done : Bool

abbrev pub new : Transaction
new = record { depth = 0; done = false }

-- `format!("sp{}", depth)`
unfoldable pub savepoint_name : ℕ → Text
savepoint_name depth = codes "sp" ++ decimal depth

unfoldable pub commit_query : ℕ → Text
commit_query depth = if depth == 0 then codes "COMMIT" else codes "RELEASE " ++ savepoint_name depth

unfoldable pub rollback_query : ℕ → Text
rollback_query depth =
    if depth == 0 then codes "ROLLBACK" else codes "ROLLBACK TO " ++ savepoint_name depth

module _ (client : Client) where
  open client use {State, batch_execute}

  -- The result is the one that `drop` ignores.
  unfoldable pub drop : Transaction → State → Result Error Unit × State
  drop t s = if t.done then (ok tt, s) else batch_execute (rollback_query t.depth) s

  -- The transaction is dropped when a method that consumes it returns.
  abbrev pub consumed : Transaction → Result Error Unit × State → Result Error Unit × State
  consumed t (r, s) = (r, (drop t s).1)

  unfoldable pub commit : Transaction → State → Result Error Unit × State
  commit t s = consumed (record t { done = true }) (batch_execute (commit_query t.depth) s)

  unfoldable pub rollback : Transaction → State → Result Error Unit × State
  rollback t s = consumed (record t { done = true }) (batch_execute (rollback_query t.depth) s)

  -- `batch_execute(..)?; Ok(transaction)`
  abbrev pub begun : ℕ → Result Error Unit × State → Result Error Transaction × State
  begun depth (ok _, s) = (ok (record { depth = depth; done = false }), s)
  begun depth (err e, s) = (err e, s)

  -- `Client::transaction`
  abbrev pub begin : State → Result Error Transaction × State
  begin s = begun 0 (batch_execute (codes "BEGIN") s)

  -- `Transaction::transaction`; the depth is a `u32`.
  unfoldable pub transaction : Transaction → State → Result Error Transaction × State
  transaction t s =
      let depth = (t.depth + 1) % 2 ^ 32 in
      begun depth (batch_execute (codes "SAVEPOINT " ++ savepoint_name depth) s)

pub data IsolationLevel : Type 0 where
  read_uncommitted read_committed repeatable_read serializable : IsolationLevel

pub record TransactionBuilder : Type 0 where
  pub isolation_level : Option IsolationLevel
  pub read_only : Option Bool
  pub deferrable : Option Bool

abbrev pub level_text : IsolationLevel → Text
level_text read_uncommitted = codes "READ UNCOMMITTED"
level_text read_committed = codes "READ COMMITTED"
level_text repeatable_read = codes "REPEATABLE READ"
level_text serializable = codes "SERIALIZABLE"

-- The query so far, and `first`.
abbrev pub add_level : Option IsolationLevel → Text × Bool → Text × Bool
add_level none (query, first) = (query, first)
add_level (some level) (query, first) =
    (query ++ codes " ISOLATION LEVEL " ++ level_text level, false)

abbrev pub add_option : Text → Text → Option Bool → Text × Bool → Text × Bool
add_option on off none (query, first) = (query, first)
add_option on off (some b) (query, first) =
    ((if first then query else query ++ codes ",") ++ (if b then on else off), false)

-- The query of `TransactionBuilder::start`.
unfoldable pub start_query : TransactionBuilder → Text
start_query b =
    (add_option (codes " DEFERRABLE") (codes " NOT DEFERRABLE") b.deferrable (
      add_option (codes " READ ONLY") (codes " READ WRITE") b.read_only
        (add_level b.isolation_level (codes "START TRANSACTION", true)))).0

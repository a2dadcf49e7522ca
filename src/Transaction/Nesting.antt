-- ===== src/Transaction/Nesting.antt =====
-- Programs of nested transactions on src/transaction.rs, and what they do to the data.
use may_postgres.Base.{
  ℕ, ◌+◌, ◌%◌, ◌^◌, ◌<◌, false, ◌++◌, ◌≡◌, refl, arith, Text, codes, Result, ok, err,
}
use may_postgres.Error.{Error}
use may_postgres.Transaction.{
  Client, Transaction, savepoint_name, drop, commit, rollback, begun, transaction,
}

pub data Ending : Type 0 where
  commits rolls_back drops : Ending

-- What is done in a transaction: queries, and transactions nested in it.
pub data Work : Type 0 where
  finish : Work
  query : Text → Work → Work
  nest : Work → Ending → Work → Work

abbrev pub transactions_in : Work → ℕ
transactions_in finish = 0
transactions_in (query text work) = transactions_in work
transactions_in (nest inner ending work) = 1 + transactions_in inner + transactions_in work

-- What work means for data: a nested transaction that is not committed leaves nothing.
module _ {V : Type 0} (effect : Text → V → V) where
  abbrev pub kept : Ending → V → V → V
  kept commits inner outer = inner
  kept rolls_back inner outer = outer
  kept drops inner outer = outer

  abbrev pub meaning : Work → V → V
  meaning finish v = v
  meaning (query text work) v = meaning work (effect text v)
  meaning (nest inner ending work) v = meaning work (kept ending (meaning inner v) v)

abbrev pub AllPlain : (Text → Type 0) → Work → Type 0
AllPlain plain finish = Unit
AllPlain plain (query text work) = plain text × AllPlain plain work
AllPlain plain (nest inner ending work) = AllPlain plain inner × AllPlain plain work

module _ (client : Client) where
  open client use {State, batch_execute}

  abbrev pub Reply : Type 0
  Reply = Result Error Unit × State

  -- `?`
  abbrev pub and_run : Reply → (State → Reply) → Reply
  and_run (ok _, s) continue = continue s
  and_run (err e, s) continue = (err e, s)

  abbrev pub on_begun : Result Error Transaction × State → (Transaction → State → Reply) → Reply
  on_begun (ok t, s) continue = continue t s
  on_begun (err e, s) continue = (err e, s)

  -- `?` while a nested transaction is alive, which is dropped on an error.
  abbrev pub in_scope : Transaction → Reply → (State → Reply) → Reply
  in_scope t (ok _, s) continue = continue s
  in_scope t (err e, s) continue = (err e, (drop client t s).1)

  abbrev pub ended : Ending → Transaction → State → Reply
  ended commits = commit client
  ended rolls_back = rollback client
  ended drops = drop client

  abbrev pub run : Work → Transaction → State → Reply
  run finish t s = (ok tt, s)
  run (query text work) t s = and_run (batch_execute text s) (run work t)
  run (nest inner ending work) t s = on_begun (transaction client t s) (λ nested s1.
      in_scope nested (run inner nested s1) (λ s2. and_run (ended ending nested s2) (run work t)))

  pub and_run-eq-ok :
      (r : Reply) (f : State → Reply) (s : State)
      → and_run r f ≡ (ok tt, s)
      → (r.0 ≡ ok tt) × (f r.1 ≡ (ok tt, s))
  and_run-eq-ok (ok _, t) f s h = (refl, h)
  and_run-eq-ok (err e, t) f s h = absurd (ground arith)

  pub in_scope-eq-ok :
      (t : Transaction) (r : Reply) (f : State → Reply) (s : State)
      → in_scope t r f ≡ (ok tt, s)
      → (r ≡ (ok tt, r.1)) × (f r.1 ≡ (ok tt, s))
  in_scope-eq-ok t (ok _, u) f s h = (refl, h)
  in_scope-eq-ok t (err e, u) f s h = absurd (ground arith)

  pub on_begun-eq-ok :
      (depth : ℕ) (r : Reply) (f : Transaction → State → Reply) (s : State)
      → on_begun (begun client depth r) f ≡ (ok tt, s)
      → (r.0 ≡ ok tt) × (f (record { depth = depth; done = false }) r.1 ≡ (ok tt, s))
  on_begun-eq-ok depth (ok _, u) f s h = (refl, h)
  on_begun-eq-ok depth (err e, u) f s h = absurd (ground arith)

  pub transaction_lem :
      (t : Transaction) (s : State)
      → t.depth + 1 < 2 ^ 32
      → transaction client t s
        ≡ begun client
            (t.depth + 1)
            (batch_execute (codes "SAVEPOINT " ++ savepoint_name (t.depth + 1)) s)
  unfolding transaction
  transaction_lem t s h = let e : (t.depth + 1) % 2 ^ 32 ≡ t.depth + 1 = omega arith in rw e refl

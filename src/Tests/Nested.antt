-- ===== src/Tests/Nested.antt =====
-- A server that keeps the texts of the queries, with savepoints, and a program on it.
use may_postgres.Base.{
  ◌++◌, true, false, List, [], ◌∷◌, ◌≡◌, refl, ◌==◌, arith, if◌then◌else◌, Option, none, some, Text,
  codes, Result, ok, err, text_eq,
}
use may_postgres.Error.{Error, closed_error}
use may_postgres.Base.Decimal.{decimal, decimal_from}
use may_postgres.Transaction.{
  Client, Transaction, savepoint_name, commit_query, rollback_query, drop, commit, transaction,
}
use may_postgres.Transaction.{TransactionBuilder, serializable, start_query}
use may_postgres.Transaction.Builder.{comma_separated, modes, start_query-modes}
use may_postgres.Transaction.Savepoints.{Saved, find, IsServer}
use may_postgres.Transaction.Nesting.{commits, drops, Work, finish, query, nest, run}
use may_postgres.Transaction.Effects.{After, run-After}

abbrev strip : Text → Text → Option Text
strip [] text = some text
strip (c ∷ cs) [] = none
strip (c ∷ cs) (d ∷ text) = let more = strip cs text in if c == d then more else none

abbrev Data : Type 0
Data = List Text

abbrev Answer : Type 0
Answer = Result Error Unit × (Data × Saved Data)

abbrev release : Option (Data × Saved Data) → Data × Saved Data → Answer
release none s = (err closed_error, s)
release (some (_, outer)) (v, saved) = (ok tt, (v, outer))

abbrev undo : Text → Option (Data × Saved Data) → Data × Saved Data → Answer
undo name none s = (err closed_error, s)
undo name (some (w, outer)) s = (ok tt, (w, (name, w) ∷ outer))

abbrev dispatch : Option Text → Option Text → Option Text → Text → Data × Saved Data → Answer
dispatch (some name) _ _ text (v, saved) = (ok tt, (v, (name, v) ∷ saved))
dispatch none (some name) _ text s = release (find name s.1) s
dispatch none none (some name) text s = undo name (find name s.1) s
dispatch none none none text (v, saved) = (ok tt, (text ∷ v, saved))

abbrev execute_text : Text → Data × Saved Data → Answer
execute_text text s =
    dispatch (strip (codes "SAVEPOINT ") text) (strip (codes "RELEASE ") text)
      (strip (codes "ROLLBACK TO ") text) text s

abbrev client : Client
client = record { State = Data × Saved Data; batch_execute = execute_text }

abbrev IsPlainText : Text → Type 0
IsPlainText text =
    (strip (codes "SAVEPOINT ") text ≡ none)
    × (strip (codes "RELEASE ") text ≡ none)
    × (strip (codes "ROLLBACK TO ") text ≡ none)

plain_effect :
    (text : Text) (s : Data × Saved Data)
    → IsPlainText text
    → (execute_text text s).0 ≡ ok tt
    → ((execute_text text s).1.0 ≡ text ∷ s.0) × ((execute_text text s).1.1 ≡ s.1)
plain_effect text s (a, b, c) h = rw (a, b, c) (refl, refl)

release_effect :
    (name : Text) (s : Data × Saved Data) (v : Data) (outer : Saved Data)
    → find name s.1 ≡ some (v, outer)
    → (release (find name s.1) s).0 ≡ ok tt
    → ((release (find name s.1) s).1.0 ≡ s.0) × ((release (find name s.1) s).1.1 ≡ outer)
release_effect name s v outer e h = rw e (refl, refl)

rollback_effect :
    (name : Text) (s : Data × Saved Data) (v : Data) (outer : Saved Data)
    → find name s.1 ≡ some (v, outer)
    → (undo name (find name s.1) s).0 ≡ ok tt
    → ((undo name (find name s.1) s).1.0 ≡ v)
      × ((undo name (find name s.1) s).1.1 ≡ (name, v) ∷ outer)
rollback_effect name s v outer e h = rw e (refl, refl)

abbrev server : IsServer client Data
server = record {
  value = λ s. s.0;
  saved = λ s. s.1;
  effect = λ text v. text ∷ v;
  IsPlain = IsPlainText;
  plain_effect = plain_effect;
  savepoint_effect = λ name s h. (refl, refl);
  release_effect = release_effect;
  rollback_effect = rollback_effect;
}

abbrev work : Work
work =
    query (codes "A")
      (nest (query (codes "B") finish) drops (nest (query (codes "C") finish) commits finish))

abbrev outermost : Transaction
outermost = record { depth = 0; done = false }

abbrev left : Data × Saved Data
left = (codes "C" ∷ codes "A" ∷ [], (codes "sp1", codes "A" ∷ []) ∷ [])

runs : run client work outermost ([], []) ≡ (ok tt, left)
unfolding transaction commit drop commit_query rollback_query savepoint_name decimal decimal_from
    find text_eq
runs = refl

run-After_example : After client server 0 [] (codes "C" ∷ codes "A" ∷ []) left
run-After_example =
    run-After client server work outermost ([], []) left
      (((refl, refl, refl)), ((((refl, refl, refl)), tt), ((((refl, refl, refl)), tt), tt)))
      (omega arith) runs

abbrev builder : TransactionBuilder
builder = record { isolation_level = some serializable; read_only = some true; deferrable = none }

start_query-modes_example :
    start_query builder ≡ codes "START TRANSACTION" ++ comma_separated (modes builder)
start_query-modes_example = start_query-modes builder

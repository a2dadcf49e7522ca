-- ===== src/Client/Agree.antt =====
-- How the queries of src/client.rs and src/query.rs agree with each other and with the replies.
use may_postgres.Base.{
  ℕ, zero, suc, List, [], ◌∷◌, ◌≡◌, refl, ◌∙◌, arith, Option, none, some, length, Result, ok, err,
  Run, returns, panics, out_of_fuel,
}
use may_postgres.Error.{Error, row_count_error}
use may_postgres.Client.Query.{
  Replies, Statement, Row, row_next, on_row, cons_row, collect_rows, query, no_second, only_row,
  query_one, only_row_opt, query_opt,
}

abbrev pub one_of : List Row → Result Error Row
one_of [] = err row_count_error
one_of (row ∷ []) = ok row
one_of (_ ∷ _ ∷ _) = err row_count_error

abbrev pub at_most_one_of : List Row → Result Error (Option Row)
at_most_one_of [] = ok none
at_most_one_of (row ∷ []) = ok (some row)
at_most_one_of (_ ∷ _ ∷ _) = err row_count_error

abbrev second_of : {A : Type 0} → List Row → A → Result Error A
second_of [] a = ok a
second_of (_ ∷ _) a = err row_count_error

cons_row-eq-ok :
    (row : Row) (r : Run (Result Error (List Row))) (rows : List Row)
    → cons_row row r ≡ returns (ok rows)
    → (more : List Row) × (r ≡ returns (ok more)) × (rows ≡ row ∷ more)
cons_row-eq-ok row (returns (ok more)) rows h = (more, refl, ground arith)
cons_row-eq-ok row (returns (err e)) rows h = absurd (ground arith)
cons_row-eq-ok row panics rows h = absurd (ground arith)
cons_row-eq-ok row out_of_fuel rows h = absurd (ground arith)

on_second :
    {A : Type 0} (o : Option (Result Error Row) × Replies)
    (continue : Replies → Run (Result Error (List Row))) (more : List Row) (a : A)
    → on_row o continue ≡ returns (ok more)
    → no_second o.0 a ≡ second_of more a
on_second (none, replies) continue [] a h = refl
on_second (none, replies) continue (_ ∷ _) a h = absurd (ground arith)
on_second (some (err e), replies) continue more a h = absurd (ground arith)
on_second (some (ok row), replies) continue more a h =
    let (rows, _, e) = cons_row-eq-ok row (continue replies) more h in rw e refl

-- The second call of `next`, when the rest can be collected.
second_row :
    {A : Type 0} (statement : Statement) (fuel : ℕ) (replies : Replies) (more : List Row) (a : A)
    → collect_rows fuel statement replies ≡ returns (ok more)
    → no_second (row_next statement replies).0 a ≡ second_of more a
unfolding collect_rows
second_row statement zero replies more a h = absurd (ground arith)
second_row statement (suc fuel) replies more a h =
    on_second (row_next statement replies) (collect_rows fuel statement) more a h

one_of-cons : (row : Row) (more : List Row) → second_of more row ≡ one_of (row ∷ more)
one_of-cons row [] = refl
one_of-cons row (_ ∷ _) = refl

at_most_one_of-cons :
    (row : Row) (more : List Row) → second_of more (some row) ≡ at_most_one_of (row ∷ more)
at_most_one_of-cons row [] = refl
at_most_one_of-cons row (_ ∷ _) = refl

on_first :
    (statement : Statement) (fuel : ℕ) (o : Option (Result Error Row) × Replies) (rows : List Row)
    → on_row o (collect_rows fuel statement) ≡ returns (ok rows)
    → (only_row statement o ≡ one_of rows) × (only_row_opt statement o ≡ at_most_one_of rows)
on_first statement fuel (none, replies) [] h = (refl, refl)
on_first statement fuel (none, replies) (_ ∷ _) h = absurd (ground arith)
on_first statement fuel (some (err e), replies) rows h = absurd (ground arith)
on_first statement fuel (some (ok row), replies) rows h =
    let (more, rest, e) = cons_row-eq-ok row (collect_rows fuel statement replies) rows h in
    rw e (
      second_row statement fuel replies more row rest ∙ one_of-cons row more,
      second_row statement fuel replies more (some row) rest ∙ at_most_one_of-cons row more,
    )

-- If `query` returns rows, then on the same replies `query_one` returns the row if there is exactly
-- one, and `query_opt` if there is at most one; otherwise they return the error for the number of
-- rows.
pub query-query_one :
    (statement : Statement) (replies : Replies) (rows : List Row)
    → query statement replies ≡ returns (ok rows)
    → (query_one statement replies ≡ one_of rows)
      × (query_opt statement replies ≡ at_most_one_of rows)
unfolding collect_rows query_one query_opt
query-query_one statement replies rows h =
    on_first statement (length replies) (row_next statement replies) rows h

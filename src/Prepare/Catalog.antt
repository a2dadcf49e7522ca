-- ===== src/Prepare/Catalog.antt =====
-- The catalog that `get_type` in src/prepare.rs reads, and the reading of its rows.
use mathlib.Core.Path.{subst}
use may_postgres.Base.{
  ℕ, zero, suc, ◌≤◌, ◌<◌, Bool, true, false, List, [], ◌∷◌, ◌≡◌, refl, sym, ap, ◌⊎◌, inl, inr,
  Option, none, some, ◌==◌, ==_iff, arith, length, Text, Result, ok, err, Run, returns, panics,
  out_of_fuel,
}
use may_postgres.Error.{Error}
use may_postgres.Client.Query.{Replies, Statement, Row, row_next, query}
use may_postgres.Client.Replied.{query-Returns, row_next_shorter}
use may_postgres.Row.{get_by_number}
use may_postgres.Prepare.{Prepared, Backend, Act, statement_of}
use may_postgres.Prepare.Types.{cons_label, on_label_row, labels_loop, choose, first_row}
use may_postgres.Prepare.Texts.{
  typeinfo_query, typeinfo_fallback_query, typeinfo_enum_query, typeinfo_enum_fallback_query,
  typeinfo_composite_query,
}
use may_postgres.Prepare.Fine.{
  Fine, Fine-weaker, Any, returns-Fine, run-Fine, get_by_number-Fine, Ending, Asked,
}
use may_postgres.Prepare.Ends.{Describes}

cons_label-Fine :
    (r : Run (Result Error Text)) (m : Run (Result Error (List Text)))
    → Fine Any r
    → Fine Any m
    → Fine Any (cons_label r m)
cons_label-Fine (returns (ok label)) (returns (ok labels)) h k = tt
cons_label-Fine (returns (ok label)) (returns (err e)) h k = tt
cons_label-Fine (returns (ok label)) panics h k = tt
cons_label-Fine (returns (ok label)) out_of_fuel h k = k
cons_label-Fine (returns (err e)) m h k = tt
cons_label-Fine panics m h k = tt
cons_label-Fine out_of_fuel m h k = h

pub nonzero : {A : Type 0} (k : ℕ) → (k ≡ 0) ⊎ A → (k == 0) ≡ false → A
nonzero k (inl e) f = absurd (ground (arith, (==_iff k 0).1 e, f))
nonzero k (inr a) f = a

pub query-Fine :
    (statement : Statement) (replies : Replies)
    → Fine (λ rows. query statement replies ≡ returns (ok rows)) (query statement replies)
query-Fine statement replies =
    let (r, e) = query-Returns statement replies in
    run-Fine Any (query statement replies) (subst (Fine Any) (sym e) (returns-Fine r))

abbrev pub EachRow : (Row → Type 0) → List Row → Type 0
EachRow P [] = Unit
EachRow P (row ∷ rows) = P row × EachRow P rows

module _ {T : Type 0} (b : Backend T) where
  abbrev pub Builtin : ℕ → Type 0
  Builtin oid = (type_ : T) × (b.from_oid oid ≡ some type_)

  -- A built-in type, or one of a small rank.
  abbrev pub Small : (ℕ → ℕ) → ℕ → ℕ → Type 0
  Small rank n oid = Builtin oid ⊎ (rank oid < n)

  -- The types that the row of a type names are smaller than it; the columns are its elements, the
  -- subtype of a range, the base of a domain and the relation of a composite type.
  pub record Below (rank : ℕ → ℕ) (oid : ℕ) (row : Row) : Type 0 where
    pub element :
        (n : ℕ) → get_by_number b.oid_sql 2 row ≡ returns (ok n) → (n ≡ 0) ⊎ Small rank (rank oid) n
    pub subtype :
        (n : ℕ)
        → get_by_number b.option_oid_sql 3 row ≡ returns (ok (some n))
        → Small rank (rank oid) n
    pub base :
        (n : ℕ) → get_by_number b.oid_sql 4 row ≡ returns (ok n) → (n ≡ 0) ⊎ Small rank (rank oid) n
    pub relation :
        (n : ℕ) → get_by_number b.oid_sql 6 row ≡ returns (ok n) → (n ≡ 0) ⊎ (rank n ≤ rank oid)

  abbrev pub FieldBelow : (ℕ → ℕ) → ℕ → Row → Type 0
  FieldBelow rank oid row =
      (n : ℕ) → get_by_number b.oid_sql 1 row ≡ returns (ok n) → Small rank (rank oid) n

  -- A catalog whose types are made of smaller ones, and whose own columns are built-in types.
  pub record Acyclic (rank : ℕ → ℕ) : Type 0 where
    pub typeinfo : Describes b Builtin typeinfo_query
    pub typeinfo_fallback : Describes b Builtin typeinfo_fallback_query
    pub typeinfo_enum : Describes b Builtin typeinfo_enum_query
    pub typeinfo_enum_fallback : Describes b Builtin typeinfo_enum_fallback_query
    pub typeinfo_composite : Describes b Builtin typeinfo_composite_query
    pub rows :
        (p : Prepared T) (oid : ℕ) (replies : Replies) (row : Row)
        → Asked b p oid replies
        → (row_next (statement_of b p) replies).0 ≡ some (ok row)
        → Below rank oid row
    pub fields :
        (p : Prepared T) (oid : ℕ) (replies : Replies) (rows : List Row)
        → Asked b p oid replies
        → query (statement_of b p) replies ≡ returns (ok rows)
        → EachRow (FieldBelow rank oid) rows

  pub first_row-eq-ok :
      (o : Option (Result Error Row) × Replies) (row : Row)
      → first_row b o ≡ ok row
      → o.0 ≡ some (ok row)
  first_row-eq-ok (none, replies) row e = absurd (ground (arith, e))
  first_row-eq-ok (some r, replies) row e = ap (λ x. some x) e

  on_label_row-Fine :
      (o : Option (Result Error Row) × Replies)
      (continue : Replies → Run (Result Error (List Text)))
      → Fine Any (continue o.1)
      → Fine Any (on_label_row b o continue)
  on_label_row-Fine (none, replies) continue h = tt
  on_label_row-Fine (some (err e), replies) continue h = tt
  on_label_row-Fine (some (ok row), replies) continue h =
      cons_label-Fine (get_by_number b.text_sql 0 row) (continue replies)
        (Fine-weaker (λ a. get_by_number b.text_sql 0 row ≡ returns (ok a)) Any
          (get_by_number b.text_sql 0 row) (λ a h. tt) (get_by_number-Fine b.text_sql 0 row))
        h

  pub labels_loop-Fine :
      (fuel : ℕ) (statement : Statement) (replies : Replies)
      → length replies < fuel
      → Fine Any (labels_loop b fuel statement replies)
  unfolding labels_loop row_next
  labels_loop-Fine zero statement replies enough = absurd (omega arith)
  labels_loop-Fine (suc fuel) statement [] enough = tt
  labels_loop-Fine (suc fuel) statement (r ∷ replies) enough =
      let l = row_next_shorter statement r replies in
      on_label_row-Fine (row_next statement (r ∷ replies)) (labels_loop b fuel statement)
        (labels_loop-Fine fuel statement _ (omega (arith, l)))

  pub choose-Ending :
      {A : Type 0} (P : A → Type 0) (c : Bool) (m n : Act b A)
      → (c ≡ true → Ending b P m)
      → (c ≡ false → Ending b P n)
      → Ending b P (choose b c m n)
  unfolding choose
  choose-Ending P true m n h k = h refl
  choose-Ending P false m n h k = k refl

-- ===== src/Prepare/Fine.antt =====
-- Actions of src/prepare.rs that end, and what their results are.
use may_postgres.Base.{
  ℕ, ◌≡◌, refl, inl, inr, Option, none, some, ◌==◌, Bool-cases, get_elem?, length, Bytes, Text,
  Result, ok, err, Run, returns, panics, out_of_fuel,
}
use may_postgres.Protocol.{ByteRange}
use may_postgres.Error.{Error}
use may_postgres.Client.Query.{Replies, Row, Column}
use may_postgres.Row.{FromSql, of_bytes, of_range, of_column, of_index, get_by_number, slice}
use may_postgres.Prepare.{
  Prepared, Backend, Memory, Act, and_next, bind, lift, ask_for, statement_of,
}

-- The run does not lack fuel, and a value that it returns is as said.
abbrev pub Fine : {A : Type 0} → (A → Type 0) → Run (Result Error A) → Type 0
Fine P (returns (ok a)) = P a
Fine P (returns (err e)) = Unit
Fine P panics = Unit
Fine P out_of_fuel = ⊥

pub Fine-weaker :
    {A : Type 0} (P Q : A → Type 0) (r : Run (Result Error A))
    → ((a : A) → P a → Q a)
    → Fine P r
    → Fine Q r
Fine-weaker P Q (returns (ok a)) f h = f a h
Fine-weaker P Q (returns (err e)) f h = tt
Fine-weaker P Q panics f h = tt
Fine-weaker P Q out_of_fuel f h = h

pub result-Fine : {A : Type 0} (r : Result Error A) → Fine (λ a. r ≡ ok a) (Run.returns r)
result-Fine (ok a) = refl
result-Fine (err e) = tt

pub run-Fine :
    {A : Type 0} (P : A → Type 0) (r : Run (Result Error A))
    → Fine P r
    → Fine (λ a. r ≡ returns (ok a)) r
run-Fine P (returns (ok a)) h = refl
run-Fine P (returns (err e)) h = tt
run-Fine P panics h = tt
run-Fine P out_of_fuel h = h

abbrev pub Any : {A : Type 0} → A → Type 0
Any a = Unit

pub returns-Fine : {A : Type 0} (r : Result Error A) → Fine Any (Run.returns r)
returns-Fine (ok a) = tt
returns-Fine (err e) = tt

module _ {X : Type 0} (sql : FromSql X) where
  of_bytes-Fine : (i ty : ℕ) (r : Run Bytes) → Fine Any (of_bytes sql i ty r)
  of_bytes-Fine i ty (returns bytes) = returns-Fine _
  of_bytes-Fine i ty panics = tt
  of_bytes-Fine i ty out_of_fuel = tt

  of_range-Fine :
      (i ty : ℕ) (buffer : Bytes) (o : Option (Option ByteRange))
      → Fine Any (of_range sql i ty buffer o)
  of_range-Fine i ty buffer none = tt
  of_range-Fine i ty buffer (some none) = returns-Fine _
  of_range-Fine i ty buffer (some (some r)) = of_bytes-Fine i ty (slice buffer r)

  of_column-Fine : (row : Row) (i : ℕ) (o : Option Column) → Fine Any (of_column sql row i o)
  of_column-Fine row i none = tt
  of_column-Fine row i (some column) = elim (Bool-cases (sql.accepts column.type_)) [
    | inl yes_ ↦ rw yes_ (of_range-Fine i column.type_ row.body.buffer (get_elem? row.ranges i))
    | inr no_ ↦ rw no_ tt
  ]

  of_index-Fine : (row : Row) (shown : Text) (o : Option ℕ) → Fine Any (of_index sql row shown o)
  of_index-Fine row shown none = tt
  of_index-Fine row shown (some i) = of_column-Fine row i (get_elem? row.statement.columns i)

  -- Reading a value takes no fuel.
  pub get_by_number-Fine :
      (i : ℕ) (row : Row)
      → Fine (λ a. get_by_number sql i row ≡ returns (ok a)) (get_by_number sql i row)
  unfolding get_by_number
  get_by_number-Fine i row = run-Fine Any (of_index sql row _ _) (of_index-Fine row _ _)

module _ {T : Type 0} (b : Backend T) where
  -- An action that ends, with a result that is as said.
  abbrev pub Ending : {A : Type 0} → (A → Type 0) → Act b A → Type 0
  Ending P m = (s : Memory b) → Fine P (m s).0

  and_next-Fine :
      {A B : Type 0} (P : A → Type 0) (Q : B → Type 0) (r : Run (Result Error A) × Memory b)
      (f : A → Act b B)
      → Fine P r.0
      → ((a : A) → P a → Ending Q (f a))
      → Fine Q (and_next b r f).0
  and_next-Fine P Q (returns (ok a), t) f h k = k a h t
  and_next-Fine P Q (returns (err e), t) f h k = tt
  and_next-Fine P Q (panics, t) f h k = tt
  and_next-Fine P Q (out_of_fuel, t) f h k = h

  pub bind-Ending :
      {A B : Type 0} (P : A → Type 0) (Q : B → Type 0) (m : Act b A) (f : A → Act b B)
      → Ending P m
      → ((a : A) → P a → Ending Q (f a))
      → Ending Q (bind b m f)
  unfolding bind
  bind-Ending P Q m f h k s = and_next-Fine P Q (m s) f (h s) k

  pub read-Ending :
      {X : Type 0} (sql : FromSql X) (i : ℕ) (row : Row)
      → Ending (λ a. get_by_number sql i row ≡ returns (ok a)) (lift b (get_by_number sql i row))
  read-Ending sql i row s = get_by_number-Fine sql i row

  -- What a request of `ask` gives.
  abbrev pub Asked : Prepared T → ℕ → Replies → Type 0
  Asked p oid replies = (w : b.World) × ((b.ask (statement_of b p) oid w).0 ≡ ok replies)

  ask-Fine :
      (p : Prepared T) (oid : ℕ) (w : b.World) (r : Result Error Replies)
      → (b.ask (statement_of b p) oid w).0 ≡ r
      → Fine (Asked p oid) (Run.returns r)
  ask-Fine p oid w (ok replies) e = (w, e)
  ask-Fine p oid w (err x) e = tt

  pub ask_for-Ending : (p : Prepared T) (oid : ℕ) → Ending (Asked p oid) (ask_for b p oid)
  ask_for-Ending p oid s = elim (Bool-cases (length p.params == 1)) [
    | inl one ↦ rw one (ask-Fine p oid s.world (b.ask (statement_of b p) oid s.world).0 refl)
    | inr other ↦ rw other tt
  ]

-- ===== src/Row/Lookup.antt =====
-- What the lookup of a column in src/row.rs finds, and when a value is read without a panic.
use may_postgres.Base.{
  ℕ, zero, suc, ◌-◌, ◌≤◌, ◌<◌, Bool, true, false, ◌&&◌, List, [], ◌∷◌, ◌≡◌, refl, sym, ap, ◌∙◌, inl,
  inr, ◌⊎◌, arith, Bool-cases, Option, none, some, leb, if◌then◌else◌, length, get_elem?, take,
  drop, map, Bytes, Text, text_eq, Result, Run, returns,
}
use may_postgres.Protocol.{ByteRange}
use may_postgres.Error.{Error}
use may_postgres.Client.Query.{Row}
use may_postgres.Row.{
  next_index, position, eq_ignore_case, or_position, index_of_name, FromSql, slice, of_bytes,
  of_range, of_column, of_index, get_by_name,
}

-- No name passes the test.
abbrev pub NoneOf : (Text → Bool) → List Text → Type 0
NoneOf f [] = Unit
NoneOf f (name ∷ names) = (f name ≡ false) × NoneOf f names

-- The name at an index is the first one that passes.
abbrev pub FirstAt : (Text → Bool) → List Text → ℕ → Type 0
FirstAt f [] i = ⊥
FirstAt f (name ∷ names) zero = f name ≡ true
FirstAt f (name ∷ names) (suc i) = (f name ≡ false) × FirstAt f names i

abbrev pub Finds : (Text → Bool) → List Text → Option ℕ → Type 0
Finds f names none = NoneOf f names
Finds f names (some i) = FirstAt f names i

Finds-next :
    (f : Text → Bool) (name : Text) (names : List Text) (o : Option ℕ)
    → f name ≡ false
    → Finds f names o
    → Finds f (name ∷ names) (next_index o)
Finds-next f name names none e h = (e, h)
Finds-next f name names (some i) e h = (e, h)

position-Finds : (f : Text → Bool) (names : List Text) → Finds f names (position f names)
unfolding position
position-Finds f [] = tt
position-Finds f (name ∷ names) = elim (Bool-cases (f name)) [
  | inl e ↦ rw e e
  | inr e ↦ rw e (Finds-next f name names (position f names) e (position-Finds f names))
]

-- The column that a name stands for: the first of that name, or, when there is none, the first of
-- that name up to the case of ASCII letters.
abbrev pub Resolves : Text → List Text → Option ℕ → Type 0
Resolves name names o =
    ((i : ℕ) × (o ≡ some i) × FirstAt (λ d. text_eq d name) names i)
    ⊎ (NoneOf (λ d. text_eq d name) names × Finds (λ d. eq_ignore_case d name) names o)

or_position-Resolves :
    (name : Text) (names : List Text) (o p : Option ℕ)
    → Finds (λ d. text_eq d name) names o
    → Finds (λ d. eq_ignore_case d name) names p
    → Resolves name names (or_position o p)
or_position-Resolves name names (some i) p h g = inl (i, refl, h)
or_position-Resolves name names none p h g = inr (h, g)

-- A column is looked up by its exact name first, and else by its name up to the case of ASCII
-- letters; of several the first is taken, and nothing is found only if none has the name up to case.
pub index_of_name-Resolves :
    (name : Text) (names : List Text) → Resolves name names (index_of_name name names)
unfolding index_of_name
index_of_name-Resolves name names =
    or_position-Resolves name names (position (λ d. text_eq d name) names)
      (position (λ d. eq_ignore_case d name) names) (position-Finds _ names)
      (position-Finds _ names)

-- A row as a server sends it: a value for each column, inside the buffer.
abbrev pub AllInside : ℕ → List (Option ByteRange) → Type 0
AllInside size [] = Unit
AllInside size (none ∷ ranges) = AllInside size ranges
AllInside size (some r ∷ ranges) = (r.start ≤ r.end) × (r.end ≤ size) × AllInside size ranges

pub record IsWhole (row : Row) : Type 0 where
  pub as_many : length row.statement.columns ≤ length row.ranges
  pub inside : AllInside (length row.body.buffer) row.ranges

in_bounds : (a b n : ℕ) → a ≤ b → b ≤ n → (leb a b && leb b n) ≡ true
in_bounds a b n h g = ground arith

slice_lem :
    (buffer : Bytes) (r : ByteRange)
    → r.start ≤ r.end
    → r.end ≤ length buffer
    → slice buffer r ≡ returns (take (r.end - r.start) (drop r.start buffer))
slice_lem buffer r h g = rw (in_bounds r.start r.end (length buffer) h g) refl

get_elem?-some :
    {A : Type 0} (xs : List A) (i : ℕ) → i < length xs → (x : A) × (get_elem? xs i ≡ some x)
get_elem?-some [] i h = absurd (omega arith)
get_elem?-some (x ∷ xs) zero h = (x, refl)
get_elem?-some (x ∷ xs) (suc i) h = get_elem?-some xs i (omega arith)

FirstAt-lt : (f : Text → Bool) (names : List Text) (i : ℕ) → FirstAt f names i → i < length names
FirstAt-lt f [] i h = absurd h
FirstAt-lt f (name ∷ names) zero h = omega arith
FirstAt-lt f (name ∷ names) (suc i) h = let l = FirstAt-lt f names i h.1 in omega (arith, l)

length-map : {A B : Type 0} (f : A → B) (xs : List A) → length (map f xs) ≡ length xs
length-map f [] = refl
length-map f (x ∷ xs) = ap suc (length-map f xs)

Finds-lt :
    (f : Text → Bool) (names : List Text) (o : Option ℕ) (i : ℕ)
    → Finds f names o
    → o ≡ some i
    → i < length names
Finds-lt f names none i h e = absurd (ground arith)
Finds-lt f names (some j) i h e = let l = FirstAt-lt f names j h in ground (arith, l)

Resolves-lt :
    (name : Text) (names : List Text) (o : Option ℕ) (i : ℕ)
    → Resolves name names o
    → o ≡ some i
    → i < length names
Resolves-lt name names o i (inl (j, e, h)) f =
    Finds-lt (λ d. text_eq d name) names (some j) i h (sym e ∙ f)
Resolves-lt name names o i (inr (_, h)) f = Finds-lt (λ d. eq_ignore_case d name) names o i h f

module _ {T : Type 0} (sql : FromSql T) where
  abbrev pub Returns : Run (Result Error T) → Type 0
  Returns run = (r : Result Error T) × (run ≡ returns r)

  pub of_range-Returns :
      (i j ty : ℕ) (buffer : Bytes) (ranges : List (Option ByteRange))
      → AllInside (length buffer) ranges
      → i < length ranges
      → Returns (of_range sql j ty buffer (get_elem? ranges i))
  of_range-Returns i j ty buffer [] h lt = absurd (omega arith)
  of_range-Returns zero j ty buffer (none ∷ ranges) h lt = (_, refl)
  of_range-Returns zero j ty buffer (some r ∷ ranges) h lt =
      (_, ap (of_bytes sql j ty) (slice_lem buffer r h.0 h.1))
  of_range-Returns (suc i) j ty buffer (none ∷ ranges) h lt =
      of_range-Returns i j ty buffer ranges h (omega arith)
  of_range-Returns (suc i) j ty buffer (some r ∷ ranges) h lt =
      of_range-Returns i j ty buffer ranges h.2 (omega arith)

  pub if_Returns :
      (b : Bool) {r s : Run (Result Error T)} → Returns r → Returns s → Returns (if b then r else s)
  if_Returns true h g = h
  if_Returns false h g = g

  of_column-Returns :
      (row : Row) (i : ℕ)
      → IsWhole row
      → i < length row.statement.columns
      → Returns (of_column sql row i (get_elem? row.statement.columns i))
  of_column-Returns row i whole lt =
      let (column, e) = get_elem?-some row.statement.columns i lt in
      rw e (
        if_Returns (sql.accepts column.type_)
          (of_range-Returns i i column.type_ row.body.buffer row.ranges whole.inside
            (omega (arith, whole.as_many)))
          (_, refl))

  of_index-Returns :
      (row : Row) (shown : Text) (o : Option ℕ)
      → IsWhole row
      → ((i : ℕ) → o ≡ some i → i < length row.statement.columns)
      → Returns (of_index sql row shown o)
  of_index-Returns row shown none whole lt = (_, refl)
  of_index-Returns row shown (some i) whole lt = of_column-Returns row i whole (lt i refl)

  -- Reading a value by a column's name does not panic, whatever the name and the type asked for are,
  -- if the row has a value for each column, inside the buffer.
  pub get_by_name-Returns :
      (name : Text) (row : Row) → IsWhole row → Returns (get_by_name sql name row)
  unfolding get_by_name
  get_by_name-Returns name row whole =
      let names = map (λ c. c.name) row.statement.columns in
      of_index-Returns row name (index_of_name name names) whole (λ i e.
        let l =
          Resolves-lt name names (index_of_name name names) i (index_of_name-Resolves name names)
            e in
        omega (arith, l, length-map (λ c. c.name) row.statement.columns))

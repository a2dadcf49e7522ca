-- ===== src/Tests/Preparing.antt =====
-- A domain over a built-in type, looked up for the parameter of a statement, and the statement
-- prepared again.
use mathlib.Core.Path.{subst}
use may_postgres.Base.{
  Run, panics, List, sym, ap, ◌∙◌, ◌≢◌, inl, inr, arith, Bool-cases, leb, length, get_elem?,
  out_of_fuel, ℕ, ◌+◌, true, [], ◌∷◌, ◌≡◌, refl, Option, none, some, ltb, if◌then◌else◌, Bytes,
  Text, codes, text_eq, take, Result, ok, err, returns,
}
use may_postgres.Base.Decimal.{decimal, decimal_from}
use may_postgres.Base.Endian.{number_of, number_from}
use may_postgres.Protocol.{
  parameter_description, Items, finished, item, DataRowBody, ByteRange, data_row,
}
use may_postgres.Error.{Error, Cause, foreign}
use may_postgres.Client.Query.{
  Statement, query, collect_rows, Row, Column, Replies, row_next, row_new,
}
use may_postgres.Row.{of_column, of_index, of_range, FromSql, get_by_number, index_of_number}
use may_postgres.Prepare.{
  statement_of, parsed, described, row_fields, Prepared, Backend, Memory, bind,
}
use may_postgres.Prepare.Types.{prepare, choose, fetch_type}
use may_postgres.Prepare.Texts.{
  typeinfo_query, typeinfo_fallback_query, typeinfo_enum_query, typeinfo_enum_fallback_query,
  typeinfo_composite_query,
}
use may_postgres.Prepare.Ends.{EachOid, EachColumn, Describes}
use may_postgres.Prepare.Catalog.{Acyclic, Below, Small, Builtin}
use may_postgres.Prepare.Acyclic.{prepare-Ends}
use may_postgres.Prepare.Again.{
  fields_message, row_fields-fields_message, description, asked, prepare-again,
}

-- A type as its name and its identifier.
abbrev Named : Type 0
Named = Text × ℕ

abbrev or_null : {A : Type 0} → (Bytes → A) → Option Bytes → Result Cause A
or_null f none = err (foreign 0)
or_null f (some bytes) = ok (f bytes)

abbrev converts : {A : Type 0} → (Bytes → A) → FromSql A
converts f = record {
  accepts = λ ty. true;
  wrong_type = foreign 1;
  from_sql_nullable = λ ty bs. or_null f bs;
}

abbrev option_number : Option Bytes → Option ℕ
option_number none = none
option_number (some bytes) = some (number_of bytes)

abbrev byte_range : ℕ → Option ByteRange
byte_range n = some (record { start = n; end = n + 1 })

-- The row of the domain: its base is the type 23.
abbrev domain_row : DataRowBody
domain_row = record {
  buffer = b'd' ∷ b'd' ∷ 0 ∷ 23 ∷ b'p' ∷ 0 ∷ [];
  ranges = item (byte_range 0) (
      item (byte_range 1) (
        item (byte_range 2)
          (item none (item (byte_range 3) (item (byte_range 4) (item (byte_range 5) finished))))));
}

abbrev row_columns : Items (Text × ℕ)
row_columns =
    item (codes "typname", 19)
      (item (codes "typtype", 18)
        (item (codes "typelem", 26)
          (item (codes "rngsubtype", 26)
            (item (codes "typbasetype", 26)
              (item (codes "nspname", 19) (item (codes "typrelid", 26) finished))))))

-- The query for a type starts with an S, the statement of the test does not.
abbrev described_as : Text → Replies
described_as text =
    if text_eq (take 1 text) (codes "S")
    then description (item 26 finished) (some row_columns) []
    else description (item 200 finished) none []

-- The world counts the requests.
abbrev backend : Backend Named
backend = record {
  from_oid = λ oid. if ltb oid 128 then some ([], oid) else none;
  oid_of = λ t. t.1;
  type_new = λ name oid kind schema. (name, oid);
  text_sql = converts (λ bytes. bytes);
  char_sql = converts number_of;
  oid_sql = converts number_of;
  option_oid_sql = record {
    accepts = λ ty. true;
    wrong_type = foreign 1;
    from_sql_nullable = λ ty bs. ok (option_number bs);
  };
  World = ℕ;
  describe = λ name text hints n. (ok (described_as text), n + 1);
  ask = λ statement oid n. (ok (ok (data_row domain_row) ∷ []), n + 1);
}

abbrev start : Memory backend
start = record {
  state = record { typeinfo = none; typeinfo_composite = none; typeinfo_enum = none; types = [] };
  world = 0;
  next_id = 0;
}

abbrev typeinfo : Prepared Named
typeinfo = record {
  name = codes "s1";
  params = ([], 26) ∷ [];
  columns =
      (codes "typname", ([], 19))
      ∷ (codes "typtype", ([], 18))
      ∷ (codes "typelem", ([], 26))
      ∷ (codes "rngsubtype", ([], 26))
      ∷ (codes "typbasetype", ([], 26))
      ∷ (codes "nspname", ([], 19))
      ∷ (codes "typrelid", ([], 26))
      ∷ [];
}

abbrev prepared : Prepared Named
prepared = record { name = codes "s0"; params = (codes "d", 200) ∷ []; columns = [] }

abbrev memory : Memory backend
memory = record {
  state = record {
    typeinfo = some typeinfo;
    typeinfo_composite = none;
    typeinfo_enum = none;
    types = (200, (codes "d", 200)) ∷ [];
  };
  world = 3;
  next_id = 2;
}

was_prepared : prepare backend 2 (codes "CALL f($1)") [] start ≡ (returns (ok prepared), memory)
unfolding prepare bind choose fetch_type text_eq row_next row_new get_by_number index_of_number
    number_from decimal decimal_from
was_prepared = refl

prepare-again_example :
    (q : Prepared Named) × (q.name ≡ codes "s2")
    × (prepare backend 1 (codes "CALL g($1)") [] memory
        ≡ (returns (ok q), asked backend (codes "CALL g($1)") [] memory))
unfolding text_eq decimal decimal_from
prepare-again_example =
    prepare-again backend 2 0 (codes "CALL f($1)") (codes "CALL g($1)") [] [] start
      (item 200 finished) none [] [] refl was_prepared refl

-- What `Ok` holds.
abbrev held_or : {A : Type 0} → A → Result Error A → A
held_or other (ok a) = a
held_or other (err e) = other

describes :
    (P : ℕ → Type 0) (text : Text) (oids : Items ℕ) (fields : Option (Items (Text × ℕ)))
    → described_as text ≡ description oids fields []
    → EachOid backend P oids × EachColumn backend P fields
    → Describes backend P text
describes P text oids fields same each name hints w replies more params found d0 d1 d2 d3 =
    let e0 : description oids fields [] ≡ replies = sym same ∙ ap (held_or []) d0 in
    let e1 : (ok (parameter_description oids) ∷ ok (fields_message fields) ∷ []) ≡ more =
      ap (held_or []) (ap parsed e0 ∙ d1) in
    let e2 : (oids, ok (fields_message fields) ∷ []) ≡ params =
      ap (held_or params) (ap described e1 ∙ d2) in
    let e3 : fields ≡ found =
      ap (held_or found)
        (sym (row_fields-fields_message fields []) ∙ ap (λ q. row_fields q.1) e2 ∙ d3) in
    (subst (λ q. EachOid backend P q.0) e2 each.0, subst (EachColumn backend P) e3 each.1)

module _ {X : Type 0} (sql : FromSql X) (row : Row) (i : ℕ) {x : X} where
  of_column-read :
      (o : Option Column)
      → of_column sql row i o ≡ returns (ok x)
      → (ty : ℕ) × (of_range sql i ty row.body.buffer (get_elem? row.ranges i) ≡ returns (ok x))
  of_column-read none e = absurd (ground (arith, e))
  of_column-read (some column) e = elim (Bool-cases (sql.accepts column.type_)) [
    | inl same ↦ (column.type_, rw same at e)
    | inr other ↦ absurd (ground (arith, rw other at e))
  ]

  index-read :
      (names : List Text)
      → of_index sql row (decimal i) (index_of_number i names) ≡ returns (ok x)
      → (ty : ℕ) × (of_range sql i ty row.body.buffer (get_elem? row.ranges i) ≡ returns (ok x))
  unfolding index_of_number
  index-read names e = elim (Bool-cases (leb (length names) i)) [
    | inl few ↦ absurd (ground (arith, rw few at e))
    | inr enough ↦ of_column-read (get_elem? row.statement.columns i) (rw enough at e)
  ]

  number-read :
      get_by_number sql i row ≡ returns (ok x)
      → (ty : ℕ) × (of_range sql i ty row.body.buffer (get_elem? row.ranges i) ≡ returns (ok x))
  unfolding get_by_number
  number-read e = index-read _ e

abbrev value_or : {A : Type 0} → A → Run (Result Error A) → A
value_or other (returns (ok a)) = a
value_or other (returns (err e)) = other
value_or other panics = other
value_or other out_of_fuel = other

abbrev row_or : Row → Option (Result Error Row) → Row
row_or other (some (ok row)) = row
row_or other (some (err e)) = other
row_or other none = other

abbrev domain_of : Statement → Row
domain_of statement = record {
  statement = statement;
  body = domain_row;
  ranges =
      byte_range 0
      ∷ byte_range 1
      ∷ byte_range 2
      ∷ none
      ∷ byte_range 3
      ∷ byte_range 4
      ∷ byte_range 5
      ∷ [];
}

abbrev no_rank : ℕ → ℕ
no_rank oid = 0

domain_of-Below :
    (statement : Statement) (oid : ℕ) → Below backend no_rank oid (domain_of statement)
unfolding number_from
domain_of-Below statement oid = record {
  element = λ n h.
      let (ty, r) = number-read backend.oid_sql (domain_of statement) 2 h in
      inl (sym (ap (value_or 0) r));
  subtype = λ n h.
      let (ty, r) = number-read backend.option_oid_sql (domain_of statement) 3 h in
      absurd (ground (arith, r));
  base = λ n h.
      let (ty, r) = number-read backend.oid_sql (domain_of statement) 4 h in
      inr (inl (subst (Builtin backend) (ap (value_or 23) r) (([], 23), refl)));
  relation = λ n h.
      let (ty, r) = number-read backend.oid_sql (domain_of statement) 6 h in
      inl (sym (ap (value_or 0) r));
}

typeinfo-Describes :
    (text : Text)
    → described_as text ≡ description (item 26 finished) (some row_columns) []
    → Describes backend (Builtin backend) text
typeinfo-Describes text same =
    describes (Builtin backend) text (item 26 finished) (some row_columns) same (
      ((([], 26), refl), tt),
      (
        (([], 19), refl),
        (
          (([], 18), refl),
          (
            (([], 26), refl),
            ((([], 26), refl), ((([], 26), refl), ((([], 19), refl), ((([], 26), refl), tt)))),
          ),
        ),
      ),
    )

backend-Acyclic : Acyclic backend no_rank
unfolding text_eq row_next row_new collect_rows
backend-Acyclic = record {
  typeinfo = typeinfo-Describes typeinfo_query refl;
  typeinfo_fallback = typeinfo-Describes typeinfo_fallback_query refl;
  typeinfo_enum = typeinfo-Describes typeinfo_enum_query refl;
  typeinfo_enum_fallback = typeinfo-Describes typeinfo_enum_fallback_query refl;
  typeinfo_composite = typeinfo-Describes typeinfo_composite_query refl;
  rows = λ p oid replies row asked_ e.
      let same : (ok (data_row domain_row) ∷ []) ≡ replies = ap (held_or []) asked_.1 in
      let found = ap (λ r. (row_next (statement_of backend p) r).0) same ∙ e in
      subst (Below backend no_rank oid) (ap (row_or row) found)
        (domain_of-Below (statement_of backend p) oid);
  fields = λ p oid replies rows asked_ e.
      let same : (ok (data_row domain_row) ∷ []) ≡ replies = ap (held_or []) asked_.1 in
      absurd (ground (arith, ap (query (statement_of backend p)) same ∙ e));
}

prepare-Ends_example : (prepare backend 2 (codes "CALL f($1)") [] start).0 ≢ out_of_fuel
unfolding text_eq
prepare-Ends_example =
    prepare-Ends backend no_rank backend-Acyclic 1 (codes "CALL f($1)") [] start (
      describes (Small backend no_rank 1) (codes "CALL f($1)") (item 200 finished) none refl
        ((inr (omega arith), tt), tt))

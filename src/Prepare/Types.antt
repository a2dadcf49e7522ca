-- ===== src/Prepare/Types.antt =====
-- src/prepare.rs: what the client knows of types, and what it asks the server for.
use may_postgres.Base.{
  ℕ, zero, suc, Bool, true, false, List, [], ◌∷◌, Option, none, some, ◌==◌, if◌then◌else◌, length,
  Text, text_eq, Result, ok, err, Run, returns, panics, out_of_fuel,
}
use may_postgres.Error.{Error, code, unexpected_message_error}
use may_postgres.Error.SqlState.{SqlState}
use may_postgres.Error.SqlState.Syntax.{undefined_column, undefined_table}
use may_postgres.Client.Query.{Replies, Statement, Row, row_next, query}
use may_postgres.Row.{get_by_number}
use may_postgres.Prepare.Texts.{
  typeinfo_query, typeinfo_fallback_query, typeinfo_enum_query, typeinfo_enum_fallback_query,
  typeinfo_composite_query,
}
use may_postgres.Prepare.{
  TypeKind, simple, pseudo, enumeration, array, range, domain, composite, Prepared, Backend,
  find_type, Memory, Act, bind, give, lift, lift_result, ask_for, statement_of, prepare_with,
}

-- `if let Some(..) = .. { return .. }`
abbrev pub first_of : {T : Type 0} → Option T → Option T → Option T
first_of none other = other
first_of (some type_) other = some type_

-- `e.code() == Some(..)`
abbrev pub is_code : SqlState → Option SqlState → Bool
is_code expected none = false
is_code expected (some found) = text_eq found.code expected.code

abbrev pub cons_label :
    Run (Result Error Text) → Run (Result Error (List Text)) → Run (Result Error (List Text))
cons_label (returns (ok label)) (returns (ok labels)) = returns (ok (label ∷ labels))
cons_label (returns (ok label)) (returns (err e)) = returns (err e)
cons_label (returns (ok label)) panics = panics
cons_label (returns (ok label)) out_of_fuel = out_of_fuel
cons_label (returns (err e)) more = returns (err e)
cons_label panics more = panics
cons_label out_of_fuel more = out_of_fuel

module _ {T : Type 0} (b : Backend T) where
  -- `Err(ref e) if e.code() == Some(..)`
  abbrev pub or_fallback :
      SqlState
      → Act b (Prepared T)
      → Run (Result Error (Prepared T)) × Memory b
      → Run (Result Error (Prepared T)) × Memory b
  or_fallback expected fallback (returns (err e), s) =
      if is_code expected (code e) then fallback s else (returns (err e), s)
  or_fallback expected fallback (r, s) = (r, s)

  abbrev pub or_prepared : Option (Prepared T) → Act b (Prepared T) → Act b (Prepared T)
  or_prepared none m = m
  or_prepared (some p) m = give b p

  abbrev pub set_typeinfo : Prepared T → Act b (Prepared T)
  set_typeinfo p s = (returns (ok p), record s { state = record s.state { typeinfo = some p } })

  abbrev pub set_typeinfo_enum : Prepared T → Act b (Prepared T)
  set_typeinfo_enum p s =
      (returns (ok p), record s { state = record s.state { typeinfo_enum = some p } })

  abbrev pub set_typeinfo_composite : Prepared T → Act b (Prepared T)
  set_typeinfo_composite p s =
      (returns (ok p), record s { state = record s.state { typeinfo_composite = some p } })

  -- `match prepare(client, query, &[])` with a fallback for older servers.
  unfoldable pub prepare_or : (ℕ → Act b T) → Text → SqlState → Text → Act b (Prepared T)
  unfolding prepare_with
  prepare_or get text expected older s =
      or_fallback expected (prepare_with b get older []) (prepare_with b get text [] s)

  -- The three statements that ask for a type.
  unfoldable pub typeinfo_statement : (ℕ → Act b T) → Act b (Prepared T)
  unfolding prepare_or
  typeinfo_statement get s =
      or_prepared s.state.typeinfo
        (bind b (prepare_or get typeinfo_query undefined_table typeinfo_fallback_query)
          set_typeinfo)
        s

  unfoldable pub typeinfo_enum_statement : (ℕ → Act b T) → Act b (Prepared T)
  unfolding prepare_or
  typeinfo_enum_statement get s =
      or_prepared s.state.typeinfo_enum
        (bind b (prepare_or get typeinfo_enum_query undefined_column typeinfo_enum_fallback_query)
          set_typeinfo_enum)
        s

  unfoldable pub typeinfo_composite_statement : (ℕ → Act b T) → Act b (Prepared T)
  unfolding prepare_with
  typeinfo_composite_statement get s =
      or_prepared s.state.typeinfo_composite
        (bind b (prepare_with b get typeinfo_composite_query []) set_typeinfo_composite) s

  -- `rows.next().transpose()?` of a row that must be there.
  abbrev pub first_row : Option (Result Error Row) × Replies → Result Error Row
  first_row (none, replies) = err unexpected_message_error
  first_row (some row, replies) = row

  -- One round of `map(..).collect()`.
  abbrev pub on_label_row :
      Option (Result Error Row) × Replies
      → (Replies → Run (Result Error (List Text)))
      → Run (Result Error (List Text))
  on_label_row (none, replies) continue = returns (ok [])
  on_label_row (some (err e), replies) continue = returns (err e)
  on_label_row (some (ok row), replies) continue =
      cons_label (get_by_number b.text_sql 0 row) (continue replies)

  unfoldable pub labels_loop : ℕ → Statement → Replies → Run (Result Error (List Text))
  labels_loop zero statement replies = out_of_fuel
  labels_loop (suc fuel) statement replies =
      on_label_row (row_next statement replies) (labels_loop fuel statement)

  unfoldable pub get_enum_variants : (ℕ → Act b T) → ℕ → Act b (List Text)
  unfolding typeinfo_enum_statement labels_loop
  get_enum_variants get oid = bind b (typeinfo_enum_statement get) (λ stmt.
      bind b (ask_for b stmt oid)
        (λ replies. lift b (labels_loop (suc (length replies)) (statement_of b stmt) replies)))

  -- The loop over the rows of the fields.
  unfoldable pub fields_loop : (ℕ → Act b T) → List Row → Act b (List (Text × T))
  fields_loop get [] = give b []
  fields_loop get (row ∷ rows) = bind b (lift b (get_by_number b.text_sql 0 row)) (λ name.
      bind b (lift b (get_by_number b.oid_sql 1 row)) (λ oid.
        bind b (get oid)
          (λ type_. bind b (fields_loop get rows) (λ fields. give b ((name, type_) ∷ fields)))))

  unfoldable pub get_composite_fields : (ℕ → Act b T) → ℕ → Act b (List (Text × T))
  unfolding typeinfo_composite_statement fields_loop
  get_composite_fields get oid = bind b (typeinfo_composite_statement get) (λ stmt.
      bind b (ask_for b stmt oid) (λ replies.
        bind b (lift b (query (statement_of b stmt) replies)) (λ rows. fields_loop get rows)))

  abbrev pub range_kind : (ℕ → Act b T) → Option ℕ → Act b (TypeKind T)
  range_kind get none = give b simple
  range_kind get (some rngsubtype) = bind b (get rngsubtype) (λ type_. give b (range type_))

  -- `if` between two actions.
  unfoldable pub choose : {A : Type 0} → Bool → Act b A → Act b A → Act b A
  choose true m n = m
  choose false m n = n

  unfoldable pub kind_of : (ℕ → Act b T) → ℕ → ℕ → ℕ → Option ℕ → ℕ → ℕ → Act b (TypeKind T)
  unfolding get_enum_variants get_composite_fields
  kind_of get oid type_ elem_oid rngsubtype basetype relid =
      choose (type_ == b'e')
        (bind b (get_enum_variants get oid) (λ variants. give b (enumeration variants)))
        (choose (type_ == b'p') (give b pseudo) (
          choose (basetype == 0)
            (choose (elem_oid == 0)
              (choose (relid == 0) (range_kind get rngsubtype)
                (bind b (get_composite_fields get relid) (λ fields. give b (composite fields))))
              (bind b (get elem_oid) (λ t. give b (array t))))
            (bind b (get basetype) (λ t. give b (domain t)))))

  -- `get_type` of a type that the client does not know, up to `set_type`.
  unfoldable pub fetch_type : (ℕ → Act b T) → ℕ → Act b T
  unfolding typeinfo_statement kind_of
  fetch_type get oid = bind b (typeinfo_statement get) (λ stmt.
      bind b (ask_for b stmt oid) (λ replies.
        bind b (lift_result b (first_row (row_next (statement_of b stmt) replies))) (λ row.
          bind b (lift b (get_by_number b.text_sql 0 row)) (λ name.
            bind b (lift b (get_by_number b.char_sql 1 row)) (λ type_.
              bind b (lift b (get_by_number b.oid_sql 2 row)) (λ elem_oid.
                bind b (lift b (get_by_number b.option_oid_sql 3 row)) (λ rngsubtype.
                  bind b (lift b (get_by_number b.oid_sql 4 row)) (λ basetype.
                    bind b (lift b (get_by_number b.text_sql 5 row)) (λ schema.
                      bind b (lift b (get_by_number b.oid_sql 6 row)) (λ relid.
                        bind b (kind_of get oid type_ elem_oid rngsubtype basetype relid)
                          (λ kind. give b (b.type_new name oid kind schema))))))))))))

  abbrev pub set_type : ℕ → T → Act b T
  set_type oid type_ s = (
    returns (ok type_),
    record s { state = record s.state { types = (oid, type_) ∷ s.state.types } },
  )

  -- `Type::from_oid` and `client.type_`
  abbrev pub known_type : ℕ → List (ℕ × T) → Option T
  known_type oid types = first_of (b.from_oid oid) (find_type oid types)

  abbrev pub or_known : Option T → Act b T → Act b T
  or_known none m = m
  or_known (some type_) m = give b type_

  -- `get_type`; the fuel is the depth of its recursion.
  unfoldable pub get_type : ℕ → ℕ → Act b T
  unfolding fetch_type
  get_type zero oid s = (out_of_fuel, s)
  get_type (suc fuel) oid s =
      or_known (known_type oid s.state.types)
        (bind b (fetch_type (get_type fuel) oid) (set_type oid)) s

  unfoldable pub prepare : ℕ → Text → List T → Act b (Prepared T)
  unfolding get_type prepare_with
  prepare fuel text types = prepare_with b (get_type fuel) text types

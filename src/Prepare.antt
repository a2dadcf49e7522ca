-- ===== src/Prepare.antt =====
-- src/prepare.rs: preparing a statement, as far as it does not look up types.
pub mod Texts
pub mod Types
pub mod Known
pub mod Looks
pub mod Again
pub mod Fine
pub mod Ends
pub mod Catalog
pub mod Acyclic
use may_postgres.Base.{
  ℕ, zero, suc, ◌+◌, ◌%◌, ◌^◌, Bool, true, false, List, [], ◌∷◌, ◌++◌, Option, none, some, ◌==◌,
  if◌then◌else◌, length, map, Text, codes, text_eq, Result, ok, err, map_err, Run, returns, panics,
  out_of_fuel,
}
use may_postgres.Base.Decimal.{decimal}
use may_postgres.Protocol.{
  IoError, Items, finished, item, failed, Message, no_data, parameter_description, parse_complete,
  row_description,
}
use may_postgres.Error.{Error, code, closed_error, parse_error, unexpected_message_error}
use may_postgres.Error.SqlState.{SqlState}
use may_postgres.Error.SqlState.Syntax.{undefined_column, undefined_table}
use may_postgres.Client.Query.{Replies, Statement, Row, row_next, query}
use may_postgres.Row.{FromSql, get_by_number}
use may_postgres.Prepare.Texts.{
  typeinfo_query, typeinfo_fallback_query, typeinfo_enum_query, typeinfo_enum_fallback_query,
  typeinfo_composite_query,
}

-- `Kind` of postgres-types.
pub data TypeKind (T : Type 0) : Type 0 where
  simple pseudo : TypeKind T
  enumeration : List Text → TypeKind T
  array range domain : T → TypeKind T
  composite : List (Text × T) → TypeKind T

pub record Prepared (T : Type 0) : Type 0 where
  pub name : Text
  pub params : List T
  pub columns : List (Text × T)

-- What `InnerClient` remembers.
pub record State (T : Type 0) : Type 0 where
  pub typeinfo : Option (Prepared T)
  pub typeinfo_composite : Option (Prepared T)
  pub typeinfo_enum : Option (Prepared T)
  pub types : List (ℕ × T)

-- The types of postgres-types with the conversions of the values that are read here, and the
-- connection: `describe` encodes and sends Parse, Describe and Sync, `ask` a query with an identifier
-- as its one parameter, and both give the replies to the request.
pub record Backend (T : Type 0) : Type 1 where
  pub from_oid : ℕ → Option T
  pub oid_of : T → ℕ
  pub type_new : Text → ℕ → TypeKind T → Text → T
  pub text_sql : FromSql Text
  pub char_sql : FromSql ℕ
  pub oid_sql : FromSql ℕ
  pub option_oid_sql : FromSql (Option ℕ)
  pub World : Type 0
  pub describe : Text → Text → List ℕ → World → Result Error Replies × World
  pub ask : Statement → ℕ → World → Result Error Replies × World

abbrev pub find_type : {T : Type 0} → ℕ → List (ℕ × T) → Option T
find_type oid [] = none
find_type oid ((other, type_) ∷ types) = if oid == other then some type_ else find_type oid types

-- The replies to Parse and Describe.
abbrev pub parsed : Replies → Result Error Replies
parsed [] = err closed_error
parsed (err e ∷ replies) = err e
parsed (ok parse_complete ∷ replies) = ok replies
parsed (ok _ ∷ replies) = err unexpected_message_error

abbrev pub described : Replies → Result Error (Items ℕ × Replies)
described [] = err closed_error
described (err e ∷ replies) = err e
described (ok (parameter_description oids) ∷ replies) = ok (oids, replies)
described (ok _ ∷ replies) = err unexpected_message_error

-- The fields of the rows, if there are rows.
abbrev pub row_fields : Replies → Result Error (Option (Items (Text × ℕ)))
row_fields [] = err closed_error
row_fields (err e ∷ replies) = err e
row_fields (ok (row_description fields) ∷ replies) = ok (some fields)
row_fields (ok no_data ∷ replies) = ok none
row_fields (ok _ ∷ replies) = err unexpected_message_error

module _ {T : Type 0} (b : Backend T) where
  -- The client, the connection and `NEXT_ID`.
  pub record Memory : Type 0 where
    pub state : State T
    pub world : b.World
    pub next_id : ℕ

  abbrev pub Act : Type 0 → Type 0
  Act A = Memory → Run (Result Error A) × Memory

  abbrev pub and_next :
      {A B : Type 0} → Run (Result Error A) × Memory → (A → Act B) → Run (Result Error B) × Memory
  and_next (returns (ok a), s) f = f a s
  and_next (returns (err e), s) f = (returns (err e), s)
  and_next (panics, s) f = (panics, s)
  and_next (out_of_fuel, s) f = (out_of_fuel, s)

  unfoldable pub bind : {A B : Type 0} → Act A → (A → Act B) → Act B
  bind m f s = and_next (m s) f

  abbrev pub lift : {A : Type 0} → Run (Result Error A) → Act A
  lift r s = (r, s)

  abbrev pub give : {A : Type 0} → A → Act A
  give a s = (returns (ok a), s)

  abbrev pub lift_result : {A : Type 0} → Result Error A → Act A
  lift_result r s = (returns r, s)

  abbrev pub statement_of : Prepared T → Statement
  statement_of p = record {
    name = p.name;
    params = map b.oid_of p.params;
    columns = map (λ c. record { name = c.0; type_ = b.oid_of c.1 }) p.columns;
  }

  -- `format!("s{}", NEXT_ID.fetch_add(1, ..))`
  abbrev pub fresh_name : Act Text
  fresh_name s = (
    returns (ok (codes "s" ++ decimal s.next_id)),
    record s { next_id = (s.next_id + 1) % 2 ^ 64 },
  )

  abbrev pub send_parse : Text → Text → List T → Act Replies
  send_parse name text types s =
      let (r, world) = b.describe name text (map b.oid_of types) s.world in
      (returns r, record s { world = world })

  -- `query::query` with one parameter; another number of parameters fails its assertion.
  abbrev pub ask_for : Prepared T → ℕ → Act Replies
  ask_for p oid s =
      if length p.params == 1
      then (let (r, world) = b.ask (statement_of p) oid s.world in
          (returns r, record s { world = world }))
      else (panics, s)

  -- The loop over the parameters.
  unfoldable pub parameters_loop : (ℕ → Act T) → Items ℕ → Act (List T)
  parameters_loop get finished = give []
  parameters_loop get (failed e) = lift_result (err (parse_error e))
  parameters_loop get (item oid oids) =
      bind (get oid) (λ type_. bind (parameters_loop get oids) (λ types. give (type_ ∷ types)))

  -- The loop over the columns.
  unfoldable pub columns_loop : (ℕ → Act T) → Items (Text × ℕ) → Act (List (Text × T))
  columns_loop get finished = give []
  columns_loop get (failed e) = lift_result (err (parse_error e))
  columns_loop get (item (name, oid) fields) =
      bind (get oid)
        (λ type_. bind (columns_loop get fields) (λ columns. give ((name, type_) ∷ columns)))

  abbrev pub columns_of : (ℕ → Act T) → Option (Items (Text × ℕ)) → Act (List (Text × T))
  columns_of get none = give []
  columns_of get (some fields) = columns_loop get fields

  -- `prepare`, with `get_type` as far as its fuel goes.
  unfoldable pub prepare_with : (ℕ → Act T) → Text → List T → Act (Prepared T)
  unfolding parameters_loop columns_loop
  prepare_with get text types = bind fresh_name (λ name.
      bind (send_parse name text types) (λ replies. bind (lift_result (parsed replies)) (λ more.
        bind (lift_result (described more)) (λ params.
          bind (lift_result (row_fields (params.1))) (λ fields.
            bind (parameters_loop get (params.0)) (λ parameters.
              bind (columns_of get fields) (λ columns.
                give (record { name = name; params = parameters; columns = columns }))))))))

-- ===== src/Error/Fields.antt =====
-- `DbError::parse` of src/error/mod.rs against the fields that the server sent.
use may_postgres.Base.{
  ℕ, Bool, Option, none, some, ◌≡◌, ap, ◌∙◌, sym, if◌then◌else◌, ◌==◌, arith, Text, ok, bind-eq-ok,
}
use may_postgres.Base.Number.{parse_unsigned}
use may_postgres.Protocol.{Items, finished, item, failed, ErrorField}
use may_postgres.Error.SqlState.{from_code}
use may_postgres.Error.Severity.{from_str}
use may_postgres.Error.Parsing.{
  DbError, Locals, no_locals, u32_max, on_field, collect, position_of, build, parse,
}

abbrev pub or_else {ℓ} : {A : Type ℓ} → Option A → Option A → Option A
or_else (some a) b = some a
or_else none b = b

-- The value of the last field of a type.
abbrev pub last_value : ℕ → Items ErrorField → Option Text
last_value type_ finished = none
last_value type_ (failed e) = none
last_value type_ (item field fields) =
    or_else (last_value type_ fields) (if field.type_ == type_ then some field.value else none)

-- What `read` makes of a value, if there is one.
abbrev pub reads : {B : Type 0} → (Text → Option B) → Option Text → Option B → Option B
reads read none default = default
reads read (some v) default = read v

reads-or_else :
    {B : Type 0} (read : Text → Option B) (l : Option Text) (b : Bool) (v : Text) (o : Option B)
    → reads read (or_else l (if b then some v else none)) o ≡ reads read l (if b then read v else o)
reads-or_else read l b v o = ground arith

reads-some : (l : Option Text) → reads some l none ≡ l
reads-some l = ground arith

-- A step treats one type of field by `read`, and leaves `local` alone at every other type.
abbrev StepReads : {B : Type 0} → (Locals → Option B) → ℕ → (Text → Option B) → Type 0
StepReads local type_ read =
    (t : ℕ) (v : Text) (f g : Locals)
    → on_field t v f ≡ ok g
    → local g ≡ (if t == type_ then read v else local f)

collect_last :
    {B : Type 0} (local : Locals → Option B) (type_ : ℕ) (read : Text → Option B)
    → StepReads local type_ read
    → (fields : Items ErrorField) (f g : Locals) → collect fields f ≡ ok g
    → local g ≡ reads read (last_value type_ fields) (local f)
unfolding collect
collect_last local type_ read step finished f g e = ground arith
collect_last local type_ read step (failed x) f g e = absurd (ground arith)
collect_last local type_ read step (item field fields) f g e =
    let (f', one, others) = bind-eq-ok (on_field field.type_ field.value f) _ e in
    collect_last local type_ read step fields f' g others
    ∙ ap (reads read (last_value type_ fields)) (step field.type_ field.value f f' one)
    ∙ sym
        (reads-or_else read (last_value type_ fields) (field.type_ == type_) field.value (local f))

step_severity : StepReads (λ f. f.severity) b'S' some
unfolding on_field
step_severity t v f g e = ground arith

step_message : StepReads (λ f. f.message) b'M' some
unfolding on_field
step_message t v f g e = ground arith

step_detail : StepReads (λ f. f.detail) b'D' some
unfolding on_field
step_detail t v f g e = ground arith

step_hint : StepReads (λ f. f.hint) b'H' some
unfolding on_field
step_hint t v f g e = ground arith

step_internal_query : StepReads (λ f. f.internal_query) b'q' some
unfolding on_field
step_internal_query t v f g e = ground arith

step_where : StepReads (λ f. f.where_) b'W' some
unfolding on_field
step_where t v f g e = ground arith

step_schema : StepReads (λ f. f.schema) b's' some
unfolding on_field
step_schema t v f g e = ground arith

step_table : StepReads (λ f. f.table) b't' some
unfolding on_field
step_table t v f g e = ground arith

step_column : StepReads (λ f. f.column) b'c' some
unfolding on_field
step_column t v f g e = ground arith

step_datatype : StepReads (λ f. f.datatype) b'd' some
unfolding on_field
step_datatype t v f g e = ground arith

step_constraint : StepReads (λ f. f.constraint) b'n' some
unfolding on_field
step_constraint t v f g e = ground arith

step_file : StepReads (λ f. f.file) b'F' some
unfolding on_field
step_file t v f g e = ground arith

step_routine : StepReads (λ f. f.routine) b'R' some
unfolding on_field
step_routine t v f g e = ground arith

step_code : StepReads (λ f. f.code) b'C' (λ v. some (from_code v))
unfolding on_field
step_code t v f g e = ground arith

step_parsed_severity : StepReads (λ f. f.parsed_severity) b'V' from_str
unfolding on_field
step_parsed_severity t v f g e = ground arith

step_normal_position : StepReads (λ f. f.normal_position) b'P' (parse_unsigned u32_max)
unfolding on_field
step_normal_position t v f g e = ground arith

step_internal_position : StepReads (λ f. f.internal_position) b'p' (parse_unsigned u32_max)
unfolding on_field
step_internal_position t v f g e = ground arith

step_line : StepReads (λ f. f.line) b'L' (parse_unsigned u32_max)
unfolding on_field
step_line t v f g e = ground arith

-- The database error that the fields say.
pub record Describes (fields : Items ErrorField) (e : DbError) : Type 0 where
  pub severity_is : last_value b'S' fields ≡ some e.severity
  pub message_is : last_value b'M' fields ≡ some e.message
  pub code_is : reads (λ v. some (from_code v)) (last_value b'C' fields) none ≡ some e.code
  pub detail_is : e.detail ≡ last_value b'D' fields
  pub hint_is : e.hint ≡ last_value b'H' fields
  pub where_is : e.where_ ≡ last_value b'W' fields
  pub schema_is : e.schema ≡ last_value b's' fields
  pub table_is : e.table ≡ last_value b't' fields
  pub column_is : e.column ≡ last_value b'c' fields
  pub datatype_is : e.datatype ≡ last_value b'd' fields
  pub constraint_is : e.constraint ≡ last_value b'n' fields
  pub file_is : e.file ≡ last_value b'F' fields
  pub routine_is : e.routine ≡ last_value b'R' fields
  pub parsed_severity_is : e.parsed_severity ≡ reads from_str (last_value b'V' fields) none
  pub line_is : e.line ≡ reads (parse_unsigned u32_max) (last_value b'L' fields) none
  pub position_is :
      position_of
        (reads (parse_unsigned u32_max) (last_value b'P' fields) none)
        (reads (parse_unsigned u32_max) (last_value b'p' fields) none)
        (last_value b'q' fields)
      ≡ ok e.position

module _ (fields : Items ErrorField) (f : Locals) (e : DbError)
    (collected : collect fields no_locals ≡ ok f) (built : build f ≡ ok e) where
  local_is :
      {B : Type 0} (local : Locals → Option B) (type_ : ℕ) (read : Text → Option B)
      → StepReads local type_ read
      → local f ≡ reads read (last_value type_ fields) (local no_locals)
  local_is local type_ read step = collect_last local type_ read step fields no_locals f collected

  build-Describes : Describes fields e
  unfolding build
  build-Describes = record {
    severity_is =
        sym (local_is (λ g. g.severity) b'S' some step_severity ∙ reads-some _) ∙ ground arith;
    message_is =
        sym (local_is (λ g. g.message) b'M' some step_message ∙ reads-some _) ∙ ground arith;
    detail_is =
        (let same : e.detail ≡ f.detail = ground arith in same)
        ∙ local_is (λ g. g.detail) b'D' some step_detail
        ∙ reads-some _;
    hint_is =
        (let same : e.hint ≡ f.hint = ground arith in same)
        ∙ local_is (λ g. g.hint) b'H' some step_hint
        ∙ reads-some _;
    where_is =
        (let same : e.where_ ≡ f.where_ = ground arith in same)
        ∙ local_is (λ g. g.where_) b'W' some step_where
        ∙ reads-some _;
    schema_is =
        (let same : e.schema ≡ f.schema = ground arith in same)
        ∙ local_is (λ g. g.schema) b's' some step_schema
        ∙ reads-some _;
    table_is =
        (let same : e.table ≡ f.table = ground arith in same)
        ∙ local_is (λ g. g.table) b't' some step_table
        ∙ reads-some _;
    column_is =
        (let same : e.column ≡ f.column = ground arith in same)
        ∙ local_is (λ g. g.column) b'c' some step_column
        ∙ reads-some _;
    datatype_is =
        (let same : e.datatype ≡ f.datatype = ground arith in same)
        ∙ local_is (λ g. g.datatype) b'd' some step_datatype
        ∙ reads-some _;
    constraint_is =
        (let same : e.constraint ≡ f.constraint = ground arith in same)
        ∙ local_is (λ g. g.constraint) b'n' some step_constraint
        ∙ reads-some _;
    file_is =
        (let same : e.file ≡ f.file = ground arith in same)
        ∙ local_is (λ g. g.file) b'F' some step_file
        ∙ reads-some _;
    routine_is =
        (let same : e.routine ≡ f.routine = ground arith in same)
        ∙ local_is (λ g. g.routine) b'R' some step_routine
        ∙ reads-some _;
    code_is = sym (local_is (λ g. g.code) b'C' (λ v. some (from_code v)) step_code) ∙ ground arith;
    parsed_severity_is =
        (let same : e.parsed_severity ≡ f.parsed_severity = ground arith in same)
        ∙ local_is (λ g. g.parsed_severity) b'V' from_str step_parsed_severity;
    line_is =
        (let same : e.line ≡ f.line = ground arith in same)
        ∙ local_is (λ g. g.line) b'L' (parse_unsigned u32_max) step_line;
    position_is =
        let query : last_value b'q' fields ≡ f.internal_query =
          sym (local_is (λ g. g.internal_query) b'q' some step_internal_query ∙ reads-some _) in
        rw
          (
            query,
            ← local_is (λ g. g.normal_position) b'P' (parse_unsigned u32_max) step_normal_position,
            ← local_is (λ g. g.internal_position) b'p' (parse_unsigned u32_max)
                step_internal_position,
          )
          (ground arith);
  }

-- If the fields parse, then the severity, the code and the message were sent, and each part of the
-- result is read from the last field of its type: texts as they are, the line and the positions
-- as 32-bit numbers, the code through `from_code`. An original position hides an internal one.
pub parse-Describes :
    (fields : Items ErrorField) (e : DbError) → parse fields ≡ ok e → Describes fields e
unfolding parse
parse-Describes fields e h =
    let (f, collected, built) = bind-eq-ok (collect fields no_locals) build h in
    build-Describes fields f e collected built

-- ===== src/Prepare/Ends.antt =====
-- Preparing a statement in src/prepare.rs ends if looking up its types does.
use may_postgres.Base.{
  ℕ, List, [], ◌≡◌, refl, inl, inr, Option, none, some, Bool-cases, map, Text, Result, ok, err, Run,
  returns, panics, out_of_fuel,
}
use may_postgres.Protocol.{Items, finished, item, failed}
use may_postgres.Error.{Error, code}
use may_postgres.Error.SqlState.{SqlState}
use may_postgres.Error.SqlState.Syntax.{undefined_column, undefined_table}
use may_postgres.Client.Query.{Replies}
use may_postgres.Prepare.{
  Prepared, Backend, Memory, Act, parsed, described, row_fields, parameters_loop, columns_loop,
  columns_of, prepare_with,
}
use may_postgres.Prepare.Types.{
  is_code, or_fallback, or_prepared, prepare_or, typeinfo_statement, typeinfo_enum_statement,
  typeinfo_composite_statement,
}
use may_postgres.Prepare.Texts.{
  typeinfo_query, typeinfo_fallback_query, typeinfo_enum_query, typeinfo_enum_fallback_query,
  typeinfo_composite_query,
}
use may_postgres.Prepare.Fine.{Ending, bind-Ending, Fine, Any, result-Fine}

module _ {T : Type 0} (b : Backend T) where
  abbrev pub EachOid : (ℕ → Type 0) → Items ℕ → Type 0
  EachOid P finished = Unit
  EachOid P (item oid oids) = P oid × EachOid P oids
  EachOid P (failed e) = Unit

  abbrev pub EachField : (ℕ → Type 0) → Items (Text × ℕ) → Type 0
  EachField P finished = Unit
  EachField P (item (name, oid) fields) = P oid × EachField P fields
  EachField P (failed e) = Unit

  abbrev pub EachColumn : (ℕ → Type 0) → Option (Items (Text × ℕ)) → Type 0
  EachColumn P none = Unit
  EachColumn P (some fields) = EachField P fields

  -- The types of every description of a statement with this text are as said.
  abbrev pub Describes : (ℕ → Type 0) → Text → Type 0
  Describes P text =
      (name : Text) (hints : List ℕ) (w : b.World) (replies more : Replies)
      (params : Items ℕ × Replies) (fields : Option (Items (Text × ℕ)))
      → (b.describe name text hints w).0 ≡ ok replies
      → parsed replies ≡ ok more
      → described more ≡ ok params
      → row_fields params.1 ≡ ok fields
      → EachOid P params.0 × EachColumn P fields

  module _ (P : ℕ → Type 0) (get : ℕ → Act b T)
      (ends : (oid : ℕ) → P oid → Ending b Any (get oid)) where
    parameters_loop-Ending :
        (oids : Items ℕ) → EachOid P oids → Ending b Any (parameters_loop b get oids)
    unfolding parameters_loop
    parameters_loop-Ending finished h = λ s. tt
    parameters_loop-Ending (failed e) h = λ s. tt
    parameters_loop-Ending (item oid oids) h =
        bind-Ending b Any Any _ _ (ends oid h.0)
          (λ t u. bind-Ending b Any Any _ _ (parameters_loop-Ending oids h.1) (λ ts v s. tt))

    columns_loop-Ending :
        (fields : Items (Text × ℕ)) → EachField P fields → Ending b Any (columns_loop b get fields)
    unfolding columns_loop
    columns_loop-Ending finished h = λ s. tt
    columns_loop-Ending (failed e) h = λ s. tt
    columns_loop-Ending (item (name, oid) fields) h =
        bind-Ending b Any Any _ _ (ends oid h.0)
          (λ t u. bind-Ending b Any Any _ _ (columns_loop-Ending fields h.1) (λ ts v s. tt))

    columns_of-Ending :
        (fields : Option (Items (Text × ℕ)))
        → EachColumn P fields
        → Ending b Any (columns_of b get fields)
    columns_of-Ending none h = λ s. tt
    columns_of-Ending (some fields) h = columns_loop-Ending fields h

    described-Fine :
        (name text : Text) (hints : List ℕ) (w : b.World) (r : Result Error Replies)
        → (b.describe name text hints w).0 ≡ r
        → Fine
            (λ replies. (w : b.World) × ((b.describe name text hints w).0 ≡ ok replies))
            (Run.returns r)
    described-Fine name text hints w (ok replies) e = (w, e)
    described-Fine name text hints w (err x) e = tt

    pub prepare_with-Ending :
        (text : Text) (types : List T)
        → Describes P text
        → Ending b Any (prepare_with b get text types)
    unfolding prepare_with
    prepare_with-Ending text types d =
        bind-Ending b Any Any _ _ (λ s. tt)
          (λ name u.
            bind-Ending b
              (λ replies.
                (w : b.World) × ((b.describe name text (map b.oid_of types) w).0 ≡ ok replies))
              Any _ _ (λ s. described-Fine name text (map b.oid_of types) s.world _ refl)
              (λ replies sent.
                bind-Ending b (λ more. parsed replies ≡ ok more) Any _ _
                  (λ s. result-Fine (parsed replies))
                  (λ more e1.
                    bind-Ending b (λ params. described more ≡ ok params) Any _ _
                      (λ s. result-Fine (described more))
                      (λ params e2.
                        bind-Ending b (λ fields. row_fields params.1 ≡ ok fields) Any _ _
                          (λ s. result-Fine (row_fields params.1))
                          (λ fields e3.
                            let each =
                              d name (map b.oid_of types) sent.0 replies more params fields sent.1
                                e1 e2 e3 in
                            bind-Ending b Any Any _ _ (parameters_loop-Ending params.0 each.0)
                              (λ ts v.
                                bind-Ending b Any Any _ _ (columns_of-Ending fields each.1)
                                  (λ cs w s. tt)))))))

    or_fallback-Fine :
        (expected : SqlState) (fallback : Act b (Prepared T))
        (r : Run (Result Error (Prepared T)) × Memory b)
        → Fine Any r.0
        → Ending b Any fallback
        → Fine Any (or_fallback b expected fallback r).0
    or_fallback-Fine expected fallback (returns (ok p), t) h k = tt
    or_fallback-Fine expected fallback (panics, t) h k = tt
    or_fallback-Fine expected fallback (out_of_fuel, t) h k = h
    or_fallback-Fine expected fallback (returns (err e), t) h k =
        elim (Bool-cases (is_code expected (code e))) [
          | inl same ↦ rw same (k t)
          | inr other ↦ rw other tt
        ]

    prepare_or-Ending :
        (text : Text) (expected : SqlState) (older : Text)
        → Describes P text
        → Describes P older
        → Ending b Any (prepare_or b get text expected older)
    unfolding prepare_or
    prepare_or-Ending text expected older d e s =
        or_fallback-Fine expected (prepare_with b get older []) (prepare_with b get text [] s)
          (prepare_with-Ending text [] d s) (prepare_with-Ending older [] e)

    or_prepared-Ending :
        (o : Option (Prepared T)) (m : Act b (Prepared T))
        → Ending b Any m
        → Ending b Any (or_prepared b o m)
    or_prepared-Ending none m h = h
    or_prepared-Ending (some p) m h = λ s. tt

    pub typeinfo_statement-Ending :
        Describes P typeinfo_query
        → Describes P typeinfo_fallback_query
        → Ending b Any (typeinfo_statement b get)
    unfolding typeinfo_statement
    typeinfo_statement-Ending d e s =
        or_prepared-Ending s.state.typeinfo _
          (bind-Ending b Any Any _ _
            (prepare_or-Ending typeinfo_query undefined_table typeinfo_fallback_query d e)
            (λ p u t. tt))
          s

    pub typeinfo_enum_statement-Ending :
        Describes P typeinfo_enum_query
        → Describes P typeinfo_enum_fallback_query
        → Ending b Any (typeinfo_enum_statement b get)
    unfolding typeinfo_enum_statement
    typeinfo_enum_statement-Ending d e s =
        or_prepared-Ending s.state.typeinfo_enum _
          (bind-Ending b Any Any _ _
            (prepare_or-Ending typeinfo_enum_query undefined_column typeinfo_enum_fallback_query d
              e)
            (λ p u t. tt))
          s

    pub typeinfo_composite_statement-Ending :
        Describes P typeinfo_composite_query → Ending b Any (typeinfo_composite_statement b get)
    unfolding typeinfo_composite_statement
    typeinfo_composite_statement-Ending d s =
        or_prepared-Ending s.state.typeinfo_composite _
          (bind-Ending b Any Any _ _ (prepare_with-Ending typeinfo_composite_query [] d)
            (λ p u t. tt))
          s

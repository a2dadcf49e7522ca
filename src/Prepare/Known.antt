-- ===== src/Prepare/Known.antt =====
-- The types that a client knows while src/prepare.rs looks up others.
use may_postgres.Base.{
  ℕ, zero, suc, Bool, true, false, List, [], ◌∷◌, ◌≡◌, refl, Option, none, some, ◌==◌, inl, inr,
  Bool-cases, length, Text, Result, ok, err, Run, returns, panics, out_of_fuel,
}
use may_postgres.Protocol.{Items, finished, item, failed}
use may_postgres.Error.{Error, code}
use may_postgres.Error.SqlState.{SqlState}
use may_postgres.Client.Query.{Row}
use may_postgres.Prepare.Texts.{typeinfo_composite_query}
use may_postgres.Prepare.{
  Prepared, Backend, Memory, Act, and_next, bind, lift, give, ask_for, parameters_loop,
  columns_loop, columns_of, prepare_with,
}
use may_postgres.Prepare.Types.{
  is_code, first_of, known_type, or_fallback, or_prepared, typeinfo_statement, prepare_or,
  typeinfo_enum_statement, typeinfo_composite_statement, get_enum_variants, fields_loop,
  get_composite_fields, range_kind, kind_of, choose, fetch_type, set_type, or_known, get_type,
}

module _ {T : Type 0} (b : Backend T) where
  -- A built-in type, or one that was looked up.
  abbrev pub IsKnown : ℕ → List (ℕ × T) → Type 0
  IsKnown oid types = (type_ : T) × (known_type b oid types ≡ some type_)

  -- What is known stays known.
  abbrev pub Keeps : Memory b → Memory b → Type 0
  Keeps s t = (oid : ℕ) → IsKnown oid s.state.types → IsKnown oid t.state.types

  abbrev pub Keeping : {A : Type 0} → Act b A → Type 0
  Keeping m = (s : Memory b) → Keeps s (m s).1

  and_next-Keeps :
      {A B : Type 0} (s : Memory b) (r : Run (Result Error A) × Memory b) (f : A → Act b B)
      → Keeps s r.1
      → ((a : A) → Keeping (f a))
      → Keeps s (and_next b r f).1
  and_next-Keeps s (returns (ok a), t) f h k = λ oid e. k a t oid (h oid e)
  and_next-Keeps s (returns (err e), t) f h k = h
  and_next-Keeps s (panics, t) f h k = h
  and_next-Keeps s (out_of_fuel, t) f h k = h

  bind-Keeping :
      {A B : Type 0} (m : Act b A) (f : A → Act b B)
      → Keeping m
      → ((a : A) → Keeping (f a))
      → Keeping (bind b m f)
  unfolding bind
  bind-Keeping m f h k s = and_next-Keeps s (m s) f (h s) k

  give-Keeping : {A : Type 0} (a : A) → Keeping (give b a)
  give-Keeping a s oid h = h

  lift-Keeping : {A : Type 0} (r : Run (Result Error A)) → Keeping (lift b r)
  lift-Keeping r s oid h = h

  ask_for-Keeping : (p : Prepared T) (oid : ℕ) → Keeping (ask_for b p oid)
  ask_for-Keeping p oid s = elim (Bool-cases (length p.params == 1)) [
    | inl one ↦ rw one (λ n h. h)
    | inr other ↦ rw other (λ n h. h)
  ]

  pub first_of-known : (o : Option T) (t : T) → (x : T) × (first_of o (some t) ≡ some x)
  first_of-known none t = (t, refl)
  first_of-known (some x) t = (x, refl)

  set_type-Keeping : (oid : ℕ) (type_ : T) → Keeping (set_type b oid type_)
  set_type-Keeping oid type_ s n (t, h) = elim (Bool-cases (n == oid)) [
    | inl same ↦ rw same (first_of-known (b.from_oid n) type_)
    | inr other ↦ rw other (t, h)
  ]

  module _ (get : ℕ → Act b T) (keep : (oid : ℕ) → Keeping (get oid)) where
    pub parameters_loop-Keeping : (oids : Items ℕ) → Keeping (parameters_loop b get oids)
    unfolding parameters_loop
    parameters_loop-Keeping finished = (λ s oid h. h)
    parameters_loop-Keeping (failed e) = λ s oid h. h
    parameters_loop-Keeping (item oid oids) =
        bind-Keeping _ _ (keep oid)
          (λ t. bind-Keeping _ _ (parameters_loop-Keeping oids) (λ ts. give-Keeping (t ∷ ts)))

    pub columns_loop-Keeping : (fields : Items (Text × ℕ)) → Keeping (columns_loop b get fields)
    unfolding columns_loop
    columns_loop-Keeping finished = (λ s oid h. h)
    columns_loop-Keeping (failed e) = λ s oid h. h
    columns_loop-Keeping (item (name, oid) fields) =
        bind-Keeping _ _ (keep oid) (λ t.
          bind-Keeping _ _ (columns_loop-Keeping fields) (λ cs. give-Keeping ((name, t) ∷ cs)))

    pub columns_of-Keeping :
        (fields : Option (Items (Text × ℕ))) → Keeping (columns_of b get fields)
    columns_of-Keeping none = (λ s oid h. h)
    columns_of-Keeping (some fields) = columns_loop-Keeping fields

    pub prepare_with-Keeping :
        (text : Text) (types : List T) → Keeping (prepare_with b get text types)
    unfolding prepare_with
    prepare_with-Keeping text types =
        bind-Keeping _ _ (λ s oid h. h)
          (λ name.
            bind-Keeping _ _ (λ s oid h. h)
              (λ replies.
                bind-Keeping _ _ (λ s oid h. h)
                  (λ more.
                    bind-Keeping _ _ (λ s oid h. h)
                      (λ params.
                        bind-Keeping _ _ (λ s oid h. h)
                          (λ fields. bind-Keeping _ _ (parameters_loop-Keeping params.0) (λ ts.
                            bind-Keeping _ _ (columns_of-Keeping fields)
                              (λ cs. (λ s oid h. h))))))))

    or_fallback-Keeps :
        (expected : SqlState) (fallback : Act b (Prepared T)) (s : Memory b)
        (r : Run (Result Error (Prepared T)) × Memory b)
        → Keeps s r.1
        → Keeping fallback
        → Keeps s (or_fallback b expected fallback r).1
    or_fallback-Keeps expected fallback s (returns (ok p), t) h k = h
    or_fallback-Keeps expected fallback s (panics, t) h k = h
    or_fallback-Keeps expected fallback s (out_of_fuel, t) h k = h
    or_fallback-Keeps expected fallback s (returns (err e), t) h k =
        elim (Bool-cases (is_code expected (code e))) [
          | inl same ↦ rw same (λ oid i. k t oid (h oid i))
          | inr other ↦ rw other h
        ]

    prepare_or-Keeping :
        (text : Text) (expected : SqlState) (older : Text)
        → Keeping (prepare_or b get text expected older)
    unfolding prepare_or
    prepare_or-Keeping text expected older s =
        or_fallback-Keeps expected (prepare_with b get older []) s (prepare_with b get text [] s)
          (prepare_with-Keeping text [] s) (prepare_with-Keeping older [])

    or_prepared-Keeping :
        (o : Option (Prepared T)) (m : Act b (Prepared T)) → Keeping m → Keeping (or_prepared b o m)
    or_prepared-Keeping none m h = h
    or_prepared-Keeping (some p) m h = give-Keeping p

    typeinfo_statement-Keeping : Keeping (typeinfo_statement b get)
    unfolding typeinfo_statement
    typeinfo_statement-Keeping s =
        or_prepared-Keeping s.state.typeinfo _
          (bind-Keeping _ _ (prepare_or-Keeping _ _ _) (λ p t oid h. h)) s

    typeinfo_enum_statement-Keeping : Keeping (typeinfo_enum_statement b get)
    unfolding typeinfo_enum_statement
    typeinfo_enum_statement-Keeping s =
        or_prepared-Keeping s.state.typeinfo_enum _
          (bind-Keeping _ _ (prepare_or-Keeping _ _ _) (λ p t oid h. h)) s

    typeinfo_composite_statement-Keeping : Keeping (typeinfo_composite_statement b get)
    unfolding typeinfo_composite_statement
    typeinfo_composite_statement-Keeping s =
        or_prepared-Keeping s.state.typeinfo_composite _
          (bind-Keeping _ _ (prepare_with-Keeping typeinfo_composite_query []) (λ p t oid h. h)) s

    get_enum_variants-Keeping : (oid : ℕ) → Keeping (get_enum_variants b get oid)
    unfolding get_enum_variants
    get_enum_variants-Keeping oid =
        bind-Keeping _ _ typeinfo_enum_statement-Keeping
          (λ p. bind-Keeping _ _ (ask_for-Keeping p oid) (λ replies s n h. h))

    fields_loop-Keeping : (rows : List Row) → Keeping (fields_loop b get rows)
    unfolding fields_loop
    fields_loop-Keeping [] = λ s oid h. h
    fields_loop-Keeping (row ∷ rows) =
        bind-Keeping _ _ (λ s oid h. h)
          (λ name.
            bind-Keeping _ _ (λ s oid h. h)
              (λ oid.
                bind-Keeping _ _ (keep oid)
                  (λ t. bind-Keeping _ _ (fields_loop-Keeping rows) (λ fields s n h. h))))

    get_composite_fields-Keeping : (oid : ℕ) → Keeping (get_composite_fields b get oid)
    unfolding get_composite_fields
    get_composite_fields-Keeping oid = bind-Keeping _ _ typeinfo_composite_statement-Keeping (λ p.
        bind-Keeping _ _ (ask_for-Keeping p oid)
          (λ replies. bind-Keeping _ _ (λ s n h. h) (λ rows. fields_loop-Keeping rows)))

    range_kind-Keeping : (o : Option ℕ) → Keeping (range_kind b get o)
    range_kind-Keeping none = λ s n h. h
    range_kind-Keeping (some oid) = bind-Keeping _ _ (keep oid) (λ t s n h. h)

    choose-Keeping :
        {A : Type 0} (c : Bool) (m n : Act b A) → Keeping m → Keeping n → Keeping (choose b c m n)
    unfolding choose
    choose-Keeping true m n h k = h
    choose-Keeping false m n h k = k

    kind_of-Keeping :
        (oid type_ elem_oid : ℕ) (rngsubtype : Option ℕ) (basetype relid : ℕ)
        → Keeping (kind_of b get oid type_ elem_oid rngsubtype basetype relid)
    unfolding kind_of
    kind_of-Keeping oid type_ elem_oid rngsubtype basetype relid =
        choose-Keeping _ _ _ (bind-Keeping _ _ (get_enum_variants-Keeping oid) (λ l s n h. h)) (
          choose-Keeping _ _ _ (λ s n h. h)
            (choose-Keeping _ _ _
              (choose-Keeping _ _ _
                (choose-Keeping _ _ _ (range_kind-Keeping rngsubtype)
                  (bind-Keeping _ _ (get_composite_fields-Keeping relid) (λ l s n h. h)))
                (bind-Keeping _ _ (keep elem_oid) (λ l s n h. h)))
              (bind-Keeping _ _ (keep basetype) (λ l s n h. h))))

    fetch_type-Keeping : (oid : ℕ) → Keeping (fetch_type b get oid)
    unfolding fetch_type
    fetch_type-Keeping oid = bind-Keeping _ _ typeinfo_statement-Keeping (λ p.
        bind-Keeping _ _ (ask_for-Keeping p oid) (λ replies.
          bind-Keeping _ _ (λ s n h. h)
            (λ row.
              bind-Keeping _ _ (λ s n h. h)
                (λ name.
                  bind-Keeping _ _ (λ s n h. h)
                    (λ type_.
                      bind-Keeping _ _ (λ s n h. h)
                        (λ elem_oid.
                          bind-Keeping _ _ (λ s n h. h)
                            (λ rngsubtype.
                              bind-Keeping _ _ (λ s n h. h)
                                (λ basetype.
                                  bind-Keeping _ _ (λ s n h. h)
                                    (λ schema.
                                      bind-Keeping _ _ (λ s n h. h)
                                        (λ relid.
                                          bind-Keeping _ _
                                            (kind_of-Keeping oid type_ elem_oid rngsubtype basetype
                                              relid)
                                            (λ kind s n h. h)))))))))))

  or_known-Keeping : (o : Option T) (m : Act b T) → Keeping m → Keeping (or_known b o m)
  or_known-Keeping none m h = h
  or_known-Keeping (some t) m h = give-Keeping t

  pub get_type-Keeping : (fuel oid : ℕ) → Keeping (get_type b fuel oid)
  unfolding get_type
  get_type-Keeping zero oid = λ s n h. h
  get_type-Keeping (suc fuel) oid = λ s.
      or_known-Keeping (known_type b oid s.state.types) _
        (bind-Keeping _ _ (fetch_type-Keeping (get_type b fuel) (get_type-Keeping fuel) oid)
          (set_type-Keeping oid))
        s

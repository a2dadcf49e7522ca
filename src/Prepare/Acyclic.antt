-- ===== src/Prepare/Acyclic.antt =====
-- `get_type` in src/prepare.rs ends on a catalog whose types are made of smaller ones.
use mathlib.Core.Path.{subst}
use may_postgres.Base.{
  ℕ, zero, suc, ◌≤◌, List, [], ◌∷◌, ◌≡◌, ◌≢◌, refl, ap, ◌∙◌, ◌⊎◌, inl, inr, Option, none, some,
  arith, length, Text, ok, returns, out_of_fuel,
}
use may_postgres.Client.Query.{Row, row_next, query}
use may_postgres.Prepare.{Backend, Memory, Act, statement_of}
use may_postgres.Prepare.Types.{
  get_enum_variants, fields_loop, get_composite_fields, range_kind, kind_of, first_row, fetch_type,
  known_type, or_known, get_type, prepare,
}
use may_postgres.Prepare.Fine.{
  Fine, Any, result-Fine, Ending, bind-Ending, read-Ending, Asked, ask_for-Ending,
}
use may_postgres.Prepare.Ends.{
  Describes, prepare_with-Ending, typeinfo_statement-Ending, typeinfo_enum_statement-Ending,
  typeinfo_composite_statement-Ending,
}
use may_postgres.Prepare.Catalog.{
  Builtin, Small, FieldBelow, Acyclic, first_row-eq-ok, labels_loop-Fine, choose-Ending, EachRow,
  nonzero, query-Fine,
}

module _ {T : Type 0} (b : Backend T) where
  module _ (rank : ℕ → ℕ) (c : Acyclic b rank) (n : ℕ) (get : ℕ → Act b T)
      (ends : (oid : ℕ) → Small b rank n oid → Ending b Any (get oid)) where
    small : (oid k : ℕ) → rank oid ≤ n → Small b rank (rank oid) k → Small b rank n k
    small oid k l (inl h) = inl h
    small oid k l (inr h) = inr (omega (arith, l, h))

    get_enum_variants-Ending : (oid : ℕ) → Ending b Any (get_enum_variants b get oid)
    unfolding get_enum_variants
    get_enum_variants-Ending oid =
        bind-Ending b Any Any _ _
          (typeinfo_enum_statement-Ending b (Builtin b) get (λ k h. ends k (inl h)) c.typeinfo_enum
            c.typeinfo_enum_fallback)
          (λ p u. bind-Ending b (Asked b p oid) Any _ _ (ask_for-Ending b p oid) (λ replies asked s.
            labels_loop-Fine b (suc (length replies)) (statement_of b p) replies (omega arith)))

    fields_loop-Ending :
        (oid : ℕ) (rows : List Row)
        → rank oid ≤ n
        → EachRow (FieldBelow b rank oid) rows
        → Ending b Any (fields_loop b get rows)
    unfolding fields_loop
    fields_loop-Ending oid [] l h = λ s. tt
    fields_loop-Ending oid (row ∷ rows) l h =
        bind-Ending b _ Any _ _ (read-Ending b b.text_sql 0 row) (λ name u.
          bind-Ending b _ Any _ _ (read-Ending b b.oid_sql 1 row) (λ k e.
            bind-Ending b Any Any _ _ (ends k (small oid k l (h.0 k e))) (λ t v.
              bind-Ending b Any Any _ _ (fields_loop-Ending oid rows l h.1) (λ fields w s. tt))))

    get_composite_fields-Ending :
        (oid : ℕ) → rank oid ≤ n → Ending b Any (get_composite_fields b get oid)
    unfolding get_composite_fields
    get_composite_fields-Ending oid l =
        bind-Ending b Any Any _ _
          (typeinfo_composite_statement-Ending b (Builtin b) get (λ k h. ends k (inl h))
            c.typeinfo_composite)
          (λ p u. bind-Ending b (Asked b p oid) Any _ _ (ask_for-Ending b p oid) (λ replies asked.
            bind-Ending b (λ rows. query (statement_of b p) replies ≡ returns (ok rows)) Any _ _
              (λ s. query-Fine (statement_of b p) replies)
              (λ rows e. fields_loop-Ending oid rows l (c.fields p oid replies rows asked e))))

    range_kind-Ending :
        (o : Option ℕ)
        → ((k : ℕ) → o ≡ some k → Small b rank n k)
        → Ending b Any (range_kind b get o)
    range_kind-Ending none h = λ s. tt
    range_kind-Ending (some k) h = bind-Ending b Any Any _ _ (ends k (h k refl)) (λ t u s. tt)

    kind_of-Ending :
        (oid type_ elem_oid : ℕ) (rngsubtype : Option ℕ) (basetype relid : ℕ)
        → ((elem_oid ≡ 0) ⊎ Small b rank n elem_oid)
        → ((k : ℕ) → rngsubtype ≡ some k → Small b rank n k)
        → ((basetype ≡ 0) ⊎ Small b rank n basetype)
        → ((relid ≡ 0) ⊎ (rank relid ≤ n))
        → Ending b Any (kind_of b get oid type_ elem_oid rngsubtype basetype relid)
    unfolding kind_of
    kind_of-Ending oid type_ elem_oid rngsubtype basetype relid elem_ rng base rel =
        choose-Ending b Any _ _ _
          (λ e. bind-Ending b Any Any _ _ (get_enum_variants-Ending oid) (λ l u s. tt))
          (λ e.
            choose-Ending b Any _ _ _ (λ e s. tt)
              (λ e.
                choose-Ending b Any _ _ _
                  (λ e.
                    choose-Ending b Any _ _ _
                      (λ e.
                        choose-Ending b Any _ _ _ (λ e. range_kind-Ending rngsubtype rng)
                          (λ e.
                            bind-Ending b Any Any _ _
                              (get_composite_fields-Ending relid (nonzero relid rel e))
                              (λ l u s. tt)))
                      (λ e.
                        bind-Ending b Any Any _ _ (ends elem_oid (nonzero elem_oid elem_ e))
                          (λ l u s. tt)))
                  (λ e.
                    bind-Ending b Any Any _ _ (ends basetype (nonzero basetype base e))
                      (λ l u s. tt))))

    scaled :
        (oid k : ℕ)
        → rank oid ≤ n
        → (k ≡ 0) ⊎ Small b rank (rank oid) k
        → (k ≡ 0) ⊎ Small b rank n k
    scaled oid k l (inl z) = inl z
    scaled oid k l (inr h) = inr (small oid k l h)

    scaled_relation :
        (oid k : ℕ) → rank oid ≤ n → (k ≡ 0) ⊎ (rank k ≤ rank oid) → (k ≡ 0) ⊎ (rank k ≤ n)
    scaled_relation oid k l (inl z) = inl z
    scaled_relation oid k l (inr h) = inr (omega (arith, l, h))

    fetch_type-Ending : (oid : ℕ) → rank oid ≤ n → Ending b Any (fetch_type b get oid)
    unfolding fetch_type
    fetch_type-Ending oid l =
        bind-Ending b Any Any _ _
          (typeinfo_statement-Ending b (Builtin b) get (λ k h. ends k (inl h)) c.typeinfo
            c.typeinfo_fallback)
          (λ p u. bind-Ending b (Asked b p oid) Any _ _ (ask_for-Ending b p oid) (λ replies asked.
            bind-Ending b (λ row. first_row b (row_next (statement_of b p) replies) ≡ ok row) Any _
              _ (λ s. result-Fine (first_row b (row_next (statement_of b p) replies)))
              (λ row e.
                let below = c.rows p oid replies row asked (first_row-eq-ok b _ row e) in
                bind-Ending b _ Any _ _ (read-Ending b b.text_sql 0 row) (λ name u.
                  bind-Ending b _ Any _ _ (read-Ending b b.char_sql 1 row) (λ type_ u.
                    bind-Ending b _ Any _ _ (read-Ending b b.oid_sql 2 row) (λ elem_oid e2.
                      bind-Ending b _ Any _ _ (read-Ending b b.option_oid_sql 3 row)
                        (λ rngsubtype e3.
                          bind-Ending b _ Any _ _ (read-Ending b b.oid_sql 4 row) (λ basetype e4.
                            bind-Ending b _ Any _ _ (read-Ending b b.text_sql 5 row) (λ schema u.
                              bind-Ending b _ Any _ _ (read-Ending b b.oid_sql 6 row) (λ relid e6.
                                bind-Ending b Any Any _ _
                                  (kind_of-Ending oid type_ elem_oid rngsubtype basetype relid
                                    (scaled oid elem_oid l (below.element elem_oid e2))
                                    (λ k e.
                                      small oid k l
                                        (below.subtype k (e3 ∙ ap (λ o. returns (ok o)) e)))
                                    (scaled oid basetype l (below.base basetype e4))
                                    (scaled_relation oid relid l (below.relation relid e6)))
                                  (λ kind u s. tt)))))))))))

  or_known-Ending : (o : Option T) (m : Act b T) → Ending b Any m → Ending b Any (or_known b o m)
  or_known-Ending none m h = h
  or_known-Ending (some t) m h = λ s. tt

  builtin-Ending :
      (n oid : ℕ) (t : T) → b.from_oid oid ≡ some t → Ending b Any (get_type b (suc n) oid)
  unfolding get_type
  builtin-Ending n oid t e s = rw e tt

  module _ (rank : ℕ → ℕ) (c : Acyclic b rank) where
    get_type-Ending : (n oid : ℕ) → Small b rank n oid → Ending b Any (get_type b (suc n) oid)
    unfolding get_type
    get_type-Ending n oid (inl (t, e)) = builtin-Ending n oid t e
    get_type-Ending zero oid (inr l) = absurd (omega (arith, l))
    get_type-Ending (suc n) oid (inr l) = λ s.
        or_known-Ending (known_type b oid s.state.types) _
          (bind-Ending b Any Any _ _
            (fetch_type-Ending rank c n (get_type b (suc n)) (get_type-Ending n) oid
              (omega (arith, l)))
            (λ t u v. tt))
          s

    -- Preparing a statement ends, on a catalog whose types are made of types of a smaller rank and
    -- whose own columns are built-in types: one more than a bound of the ranks of the statement's
    -- parameters and columns is enough fuel, whatever else the server answers and the client
    -- remembers.
    pub prepare-Ends :
        (n : ℕ) (text : Text) (types : List T) (s : Memory b)
        → Describes b (Small b rank n) text
        → (prepare b (suc n) text types s).0 ≢ out_of_fuel
    unfolding prepare
    prepare-Ends n text types s d e = subst (Fine Any) e (
        prepare_with-Ending b (Small b rank n) (get_type b (suc n)) (get_type-Ending n) text types d
          s)

-- ===== src/Prepare/Again.antt =====
-- What src/prepare.rs asks of the server for a statement whose types the client knows.
use mathlib.Core.Path.{subst}
use may_postgres.Base.{
  ℕ, suc, ◌+◌, ◌%◌, ◌^◌, List, ◌∷◌, ◌++◌, map, ◌≡◌, refl, sym, ◌∙◌, Option, none, some, Text, codes,
  Result, ok, returns,
}
use may_postgres.Base.Decimal.{decimal}
use may_postgres.Protocol.{
  Items, Message, no_data, parameter_description, parse_complete, row_description,
}
use may_postgres.Error.{Error}
use may_postgres.Client.Query.{Replies}
use may_postgres.Prepare.{
  Prepared, Backend, Memory, Act, bind, give, row_fields, parameters_loop, columns_of, prepare_with,
}
use may_postgres.Prepare.Types.{get_type, prepare}
use may_postgres.Prepare.Known.{columns_of-Keeping, get_type-Keeping}
use may_postgres.Prepare.Looks.{
  OidsKnown, RowsKnown, bind-eq-ok, bind-ok, OidsKnown-Keeps, Keeping-eq, parameters_loop-OidsKnown,
  parameters_loop-known, columns_of-RowsKnown, columns_of-known,
}

abbrev pub fields_message : Option (Items (Text × ℕ)) → Message
fields_message none = no_data
fields_message (some fields) = row_description fields

-- A server's answer to Parse and Describe.
abbrev pub description : Items ℕ → Option (Items (Text × ℕ)) → Replies → Replies
description oids fields more =
    ok parse_complete ∷ ok (parameter_description oids) ∷ ok (fields_message fields) ∷ more

pub row_fields-fields_message :
    (fields : Option (Items (Text × ℕ))) (more : Replies)
    → row_fields (ok (fields_message fields) ∷ more) ≡ ok fields
row_fields-fields_message none more = refl
row_fields-fields_message (some fields) more = refl

module _ {T : Type 0} (b : Backend T) where
  -- The reply to the request that prepares `text`.
  abbrev pub answer : Text → List T → Memory b → Result Error Replies × b.World
  answer text types s =
      b.describe (codes "s" ++ decimal s.next_id) text (map b.oid_of types) s.world

  -- Behind that one request; nothing else has changed but the number of the next statement.
  abbrev pub asked : Text → List T → Memory b → Memory b
  asked text types s = record s {
    world = (answer text types s).1;
    next_id = (s.next_id + 1) % 2 ^ 64;
  }

  abbrev types_of : (ℕ → Act b T) → Items ℕ → Option (Items (Text × ℕ)) → Text → Act b (Prepared T)
  types_of get oids fields name = bind b (parameters_loop b get oids) (λ parameters.
      bind b (columns_of b get fields)
        (λ columns. give b (record { name = name; params = parameters; columns = columns })))

  prepare-types_of :
      (get : ℕ → Act b T) (text : Text) (types : List T) (s : Memory b) (oids : Items ℕ)
      (fields : Option (Items (Text × ℕ))) (more : Replies)
      → (answer text types s).0 ≡ ok (description oids fields more)
      → prepare_with b get text types s
        ≡ types_of get oids fields (codes "s" ++ decimal s.next_id) (asked text types s)
  unfolding prepare_with bind
  prepare-types_of get text types s oids fields more d =
      rw (d, row_fields-fields_message fields more) refl

  types_of-Known :
      (fuel : ℕ) (oids : Items ℕ) (fields : Option (Items (Text × ℕ))) (name : Text) (s : Memory b)
      {p : Prepared T} {u : Memory b}
      → types_of (get_type b fuel) oids fields name s ≡ (returns (ok p), u)
      → OidsKnown b u.state.types oids × RowsKnown b u.state.types fields
  types_of-Known fuel oids fields name s e =
      let (ps, v, looped, later) = bind-eq-ok b (parameters_loop b (get_type b fuel) oids) _ s e in
      let (cs, w, columned, given) =
        bind-eq-ok b (columns_of b (get_type b fuel) fields) _ v later in
      subst (λ p. OidsKnown b p.1.state.types oids × RowsKnown b p.1.state.types fields) given
        (
          OidsKnown-Keeps b v w
              (Keeping-eq b (columns_of b (get_type b fuel) fields) v
                (columns_of-Keeping b (get_type b fuel) (get_type-Keeping b fuel) fields) columned)
              oids (parameters_loop-OidsKnown b fuel oids s looped),
          columns_of-RowsKnown b fuel fields v columned,
        )

  -- If preparing a statement succeeds, then preparing one with the same types again, whatever its
  -- text is, succeeds with one request and no other, and changes nothing that the client remembers:
  -- all types that the first one has looked up are known. The answers to both requests describe the
  -- same parameters and columns.
  pub prepare-again :
      (fuel more_fuel : ℕ) (text again : Text) (types hints : List T) (s : Memory b)
      (oids : Items ℕ) (fields : Option (Items (Text × ℕ))) (more rest : Replies) {p : Prepared T}
      {u : Memory b}
      → (answer text types s).0 ≡ ok (description oids fields more)
      → prepare b fuel text types s ≡ (returns (ok p), u)
      → (answer again hints u).0 ≡ ok (description oids fields rest)
      → (q : Prepared T) × (q.name ≡ codes "s" ++ decimal u.next_id)
        × (prepare b (suc more_fuel) again hints u ≡ (returns (ok q), asked again hints u))
  unfolding prepare
  prepare-again fuel more_fuel text again types hints s oids fields more rest {p} {u} d e d2 =
      let (ks, fs) =
        types_of-Known fuel oids fields _ _
          (sym (prepare-types_of (get_type b fuel) text types s oids fields more d) ∙ e) in
      let (ps, looped) = parameters_loop-known b more_fuel oids (asked again hints u) ks in
      let (cs, columned) = columns_of-known b more_fuel fields (asked again hints u) fs in
      (
        record { name = codes "s" ++ decimal u.next_id; params = ps; columns = cs },
        refl,
        prepare-types_of (get_type b (suc more_fuel)) again hints u oids fields rest d2
            ∙ bind-ok b (parameters_loop b (get_type b (suc more_fuel)) oids) _ _ looped
            ∙ bind-ok b (columns_of b (get_type b (suc more_fuel)) fields) _ _ columned,
      )

-- ===== src/Prepare/Looks.antt =====
-- The types of parameters and columns that src/prepare.rs has looked up are known.
use mathlib.Core.Path.{subst}
use may_postgres.Base.{
  if◌then◌else◌, ℕ, zero, suc, List, [], ◌∷◌, ◌≡◌, refl, sym, ap, ◌∙◌, Option, none, some, ==_iff,
  arith, Text, Result, ok, err, Run, returns, panics, out_of_fuel,
}
use may_postgres.Protocol.{Items, finished, item, failed}
use may_postgres.Error.{Error}
use may_postgres.Prepare.{
  find_type, Backend, Memory, Act, and_next, bind, parameters_loop, columns_loop, columns_of,
}
use may_postgres.Prepare.Types.{first_of, known_type, fetch_type, set_type, or_known, get_type}
use may_postgres.Prepare.Known.{
  first_of-known, IsKnown, Keeps, Keeping, parameters_loop-Keeping, columns_loop-Keeping,
  get_type-Keeping,
}

module _ {T : Type 0} (b : Backend T) where
  abbrev pub OidsKnown : List (ℕ × T) → Items ℕ → Type 0
  OidsKnown types finished = Unit
  OidsKnown types (item oid oids) = IsKnown b oid types × OidsKnown types oids
  OidsKnown types (failed e) = ⊥

  abbrev pub FieldsKnown : List (ℕ × T) → Items (Text × ℕ) → Type 0
  FieldsKnown types finished = Unit
  FieldsKnown types (item (name, oid) fields) = IsKnown b oid types × FieldsKnown types fields
  FieldsKnown types (failed e) = ⊥

  abbrev pub RowsKnown : List (ℕ × T) → Option (Items (Text × ℕ)) → Type 0
  RowsKnown types none = Unit
  RowsKnown types (some fields) = FieldsKnown types fields

  and_next-eq-ok :
      {A B : Type 0} (r : Run (Result Error A) × Memory b) (f : A → Act b B) {y : B} {t : Memory b}
      → and_next b r f ≡ (returns (ok y), t)
      → (x : A) × (u : Memory b) × (r ≡ (returns (ok x), u)) × (f x u ≡ (returns (ok y), t))
  and_next-eq-ok (returns (ok x), u) f h = (x, u, refl, h)
  and_next-eq-ok (returns (err e), u) f h = absurd (ground (arith, ap (λ p. p.0) h))
  and_next-eq-ok (panics, u) f h = absurd (ground (arith, ap (λ p. p.0) h))
  and_next-eq-ok (out_of_fuel, u) f h = absurd (ground (arith, ap (λ p. p.0) h))

  pub bind-eq-ok :
      {A B : Type 0} (m : Act b A) (f : A → Act b B) (s : Memory b) {y : B} {t : Memory b}
      → bind b m f s ≡ (returns (ok y), t)
      → (x : A) × (u : Memory b) × (m s ≡ (returns (ok x), u)) × (f x u ≡ (returns (ok y), t))
  unfolding bind
  bind-eq-ok m f s h = and_next-eq-ok (m s) f h

  pub bind-ok :
      {A B : Type 0} (m : Act b A) (f : A → Act b B) (s : Memory b) {x : A} {u : Memory b}
      → m s ≡ (returns (ok x), u)
      → bind b m f s ≡ f x u
  unfolding bind
  bind-ok m f s h = ap (λ r. and_next b r f) h

  or_known-IsKnown :
      (oid : ℕ) (s : Memory b) (o : Option T) (m : Act b T) {t : T} {u : Memory b}
      → known_type b oid s.state.types ≡ o
      → ((t : T) (u : Memory b) → m s ≡ (returns (ok t), u) → IsKnown b oid u.state.types)
      → or_known b o m s ≡ (returns (ok t), u)
      → IsKnown b oid u.state.types
  or_known-IsKnown oid s none m k h e = h _ _ e
  or_known-IsKnown oid s (some t) m k h e =
      (t, ap (λ p. known_type b oid p.1.state.types) (sym e) ∙ k)

  set_type-IsKnown :
      (oid : ℕ) (type_ : T) (s : Memory b) {t : T} {u : Memory b}
      → set_type b oid type_ s ≡ (returns (ok t), u)
      → IsKnown b oid u.state.types
  set_type-IsKnown oid type_ s e =
      let (x, h) = first_of-known b (b.from_oid oid) type_ in
      (
        x,
        ap (λ p. known_type b oid p.1.state.types) (sym e)
            ∙ ap
                (λ c.
                  first_of (b.from_oid oid) (if c then some type_ else find_type oid s.state.types))
                ((==_iff oid oid).1 refl)
            ∙ h,
      )

  get_type-IsKnown :
      (fuel oid : ℕ) (s : Memory b) {t : T} {u : Memory b}
      → get_type b fuel oid s ≡ (returns (ok t), u)
      → IsKnown b oid u.state.types
  unfolding get_type
  get_type-IsKnown zero oid s e = absurd (ground (arith, ap (λ p. p.0) e))
  get_type-IsKnown (suc fuel) oid s e =
      or_known-IsKnown oid s (known_type b oid s.state.types) _ refl
        (λ t u h.
          let (x, v, fetched, stored) =
            bind-eq-ok (fetch_type b (get_type b fuel) oid) (set_type b oid) s h in
          set_type-IsKnown oid x v stored)
        e

  -- A type that is known costs no request.
  get_type-known :
      (fuel oid : ℕ) (s : Memory b) (k : IsKnown b oid s.state.types)
      → get_type b (suc fuel) oid s ≡ (returns (ok k.0), s)
  unfolding get_type
  get_type-known fuel oid s (t, e) = rw e refl

  pub OidsKnown-Keeps :
      (s t : Memory b)
      → Keeps b s t
      → (oids : Items ℕ) → OidsKnown s.state.types oids
      → OidsKnown t.state.types oids
  OidsKnown-Keeps s t h finished k = tt
  OidsKnown-Keeps s t h (item oid oids) k = (h oid k.0, OidsKnown-Keeps s t h oids k.1)
  OidsKnown-Keeps s t h (failed e) k = k

  FieldsKnown-Keeps :
      (s t : Memory b)
      → Keeps b s t
      → (fields : Items (Text × ℕ)) → FieldsKnown s.state.types fields
      → FieldsKnown t.state.types fields
  FieldsKnown-Keeps s t h finished k = tt
  FieldsKnown-Keeps s t h (item (name, oid) fields) k =
      (h oid k.0, FieldsKnown-Keeps s t h fields k.1)
  FieldsKnown-Keeps s t h (failed e) k = k

  pub Keeping-eq :
      {A : Type 0} (m : Act b A) (s : Memory b) {r : Run (Result Error A)} {t : Memory b}
      → Keeping b m
      → m s ≡ (r, t)
      → Keeps b s t
  Keeping-eq m s k e = subst (λ p. Keeps b s p.1) e (k s)

  module _ (fuel : ℕ) where
    pub parameters_loop-OidsKnown :
        (oids : Items ℕ) (s : Memory b) {ts : List T} {u : Memory b}
        → parameters_loop b (get_type b fuel) oids s ≡ (returns (ok ts), u)
        → OidsKnown u.state.types oids
    unfolding parameters_loop
    parameters_loop-OidsKnown finished s e = tt
    parameters_loop-OidsKnown (failed x) s e = absurd (ground (arith, ap (λ p. p.0) e))
    parameters_loop-OidsKnown (item oid oids) s e =
        let (t, v, got, later) = bind-eq-ok (get_type b fuel oid) _ s e in
        let (ts, w, looped, given) =
          bind-eq-ok (parameters_loop b (get_type b fuel) oids) _ v later in
        subst (λ p. OidsKnown p.1.state.types (item oid oids)) given
          (
            Keeping-eq (parameters_loop b (get_type b fuel) oids) v
                (parameters_loop-Keeping b (get_type b fuel) (get_type-Keeping b fuel) oids) looped
                oid (get_type-IsKnown fuel oid s got),
            parameters_loop-OidsKnown oids v looped,
          )

    pub parameters_loop-known :
        (oids : Items ℕ) (s : Memory b)
        → OidsKnown s.state.types oids
        → (ts : List T) × (parameters_loop b (get_type b (suc fuel)) oids s ≡ (returns (ok ts), s))
    unfolding parameters_loop
    parameters_loop-known finished s k = ([], refl)
    parameters_loop-known (failed x) s k = absurd k
    parameters_loop-known (item oid oids) s k =
        let (ts, e) = parameters_loop-known oids s k.1 in
        (
          k.0.0 ∷ ts,
          bind-ok (get_type b (suc fuel) oid) _ s (get_type-known fuel oid s k.0)
              ∙ bind-ok (parameters_loop b (get_type b (suc fuel)) oids) _ s e,
        )

    columns_loop-FieldsKnown :
        (fields : Items (Text × ℕ)) (s : Memory b) {cs : List (Text × T)} {u : Memory b}
        → columns_loop b (get_type b fuel) fields s ≡ (returns (ok cs), u)
        → FieldsKnown u.state.types fields
    unfolding columns_loop
    columns_loop-FieldsKnown finished s e = tt
    columns_loop-FieldsKnown (failed x) s e = absurd (ground (arith, ap (λ p. p.0) e))
    columns_loop-FieldsKnown (item (name, oid) fields) s e =
        let (t, v, got, later) = bind-eq-ok (get_type b fuel oid) _ s e in
        let (ts, w, looped, given) =
          bind-eq-ok (columns_loop b (get_type b fuel) fields) _ v later in
        subst (λ p. FieldsKnown p.1.state.types (item (name, oid) fields)) given
          (
            Keeping-eq (columns_loop b (get_type b fuel) fields) v
                (columns_loop-Keeping b (get_type b fuel) (get_type-Keeping b fuel) fields) looped
                oid (get_type-IsKnown fuel oid s got),
            columns_loop-FieldsKnown fields v looped,
          )

    columns_loop-known :
        (fields : Items (Text × ℕ)) (s : Memory b)
        → FieldsKnown s.state.types fields
        → (cs : List (Text × T)) × (columns_loop b (get_type b (suc fuel)) fields s
            ≡ (returns (ok cs), s))
    unfolding columns_loop
    columns_loop-known finished s k = ([], refl)
    columns_loop-known (failed x) s k = absurd k
    columns_loop-known (item (name, oid) fields) s k =
        let (cs, e) = columns_loop-known fields s k.1 in
        (
          (name, k.0.0) ∷ cs,
          bind-ok (get_type b (suc fuel) oid) _ s (get_type-known fuel oid s k.0)
              ∙ bind-ok (columns_loop b (get_type b (suc fuel)) fields) _ s e,
        )

    pub columns_of-RowsKnown :
        (fields : Option (Items (Text × ℕ))) (s : Memory b) {cs : List (Text × T)} {u : Memory b}
        → columns_of b (get_type b fuel) fields s ≡ (returns (ok cs), u)
        → RowsKnown u.state.types fields
    columns_of-RowsKnown none s e = tt
    columns_of-RowsKnown (some fields) s e = columns_loop-FieldsKnown fields s e

    pub columns_of-known :
        (fields : Option (Items (Text × ℕ))) (s : Memory b)
        → RowsKnown s.state.types fields
        → (cs : List (Text × T)) × (columns_of b (get_type b (suc fuel)) fields s
            ≡ (returns (ok cs), s))
    columns_of-known none s k = ([], refl)
    columns_of-known (some fields) s k = columns_loop-known fields s k

-- ===== src/Copy/Binary/Bounds.antt =====
-- What the reader of src/binary_copy.rs returns, and that it stays within its chunks.
use mathlib.Core.Path.{subst}
use may_postgres.Base.{
  ℕ, ◌+◌, ◌≤◌, ◌<◌, ◌^◌, Bool, List, ◌≡◌, refl, sym, ap, ◌∙◌, Option, none, some, ◌==◌, ==_iff,
  arith, inl, inr, Bool-cases, length, take, drop, true, false, ◌-◌, Bytes, Result, ok, err,
  returns, panics, out_of_fuel,
}
use may_postgres.Base.Endian.{number_of, i16_as_usize}
use may_postgres.Error.{Error}
use may_postgres.Config.{Step}
use may_postgres.Copy.{out_next}
use may_postgres.Copy.Writer.{minus_one16}
use may_postgres.Copy.Binary.{
  Cursor, cursor, remaining, check_remaining, get, BinaryCopyOutRow, BinaryCopyOutStream, header_of,
  ranges_loop, plus_oid, rounds, values_of, row_of, Item, item_of, on_header, on_chunk, next,
}
use may_postgres.Copy.Binary.Steps.{
  Safe, SafeOr, bind-Safe, bind-SafeOr, Safe-implied, SafeOr-panics,
}
use may_postgres.Copy.Binary.Cursors.{
  In, check_remaining-Safe, Got, get-Safe, Ranges, ranges_loop-Safe, values_start, header_of-Safe,
}

-- A value for every type, each within the buffer.
pub record IsRow (row : BinaryCopyOutRow) : Type 0 where
  pub in_buffer : Ranges row.buf row.ranges
  pub as_many : length row.ranges ≡ length row.types

abbrev pub OptionRow : Option BinaryCopyOutRow → Type 0
OptionRow none = Unit
OptionRow (some row) = IsRow row

-- A number of values that is a number of types is not negative.
rounds_all : (len n : ℕ) → n < 2 ^ 63 → i16_as_usize len ≡ n → rounds len ≡ n
rounds_all len n h e = ground arith

values_of-Safe :
    (chunk : Bytes) (types : List ℕ) (len : ℕ) (c : Cursor)
    → length types < 2 ^ 63
    → In chunk c
    → Safe OptionRow (values_of types len c)
values_of-Safe chunk types len c few i = elim (Bool-cases (i16_as_usize len == length types)) [
  | inr other ↦ rw other tt
  | inl same ↦ rw same (
      bind-Safe (λ rs. Ranges chunk rs × (length rs ≡ rounds len)) OptionRow
        (ranges_loop (rounds len) c) _ (ranges_loop-Safe chunk (rounds len) c i)
        (λ rs h. record {
          in_buffer = subst (λ b. Ranges b rs) (sym i.0) h.0;
          as_many =
              h.1
              ∙ rounds_all len (length types) few
                  ((==_iff (i16_as_usize len) (length types)).0 same);
        }))
]

-- A build with overflow checks, a stream with object identifiers, and the greatest `i16` at `at`.
abbrev pub OverflowsIn : Bool → Bytes → ℕ → Option Bool → Type 0
OverflowsIn overflow_checks chunk at header =
    (overflow_checks ≡ true)
    × (header ≡ some true)
    × (at + 2 ≤ length chunk)
    × (number_of (take 2 (drop at chunk)) ≡ 2 ^ 15 - 1)

plus_oid-SafeOr :
    (overflow_checks has_oids : Bool) (len : ℕ)
    → SafeOr
        ((overflow_checks ≡ true) × (has_oids ≡ true) × (len ≡ 2 ^ 15 - 1))
        (λ _. Unit)
        (plus_oid overflow_checks has_oids len)
plus_oid-SafeOr overflow_checks false len = tt
plus_oid-SafeOr false true len = tt
plus_oid-SafeOr true true len = elim (Bool-cases (len == 2 ^ 15 - 1)) [
  | inl greatest ↦ rw greatest (refl, refl, (==_iff len (2 ^ 15 - 1)).0 greatest)
  | inr other ↦ rw other tt
]

row_of-SafeOr :
    (overflow_checks : Bool) (chunk : Bytes) (types : List ℕ) (has_oids : Bool) (c : Cursor)
    → length types < 2 ^ 63
    → In chunk c
    → SafeOr
        (OverflowsIn overflow_checks chunk c.position (some has_oids))
        OptionRow
        (row_of overflow_checks types has_oids c)
row_of-SafeOr overflow_checks chunk types has_oids c few i =
    let X = OverflowsIn overflow_checks chunk c.position (some has_oids) in
    bind-SafeOr X (λ _. 2 ≤ remaining c) OptionRow (check_remaining c 2) _
      (Safe-implied X (λ _. 2 ≤ remaining c) (check_remaining c 2) (check_remaining-Safe c 2))
      (λ _ e.
        bind-SafeOr X (Got chunk 2 c) OptionRow (get 2 c) _
          (Safe-implied X (Got chunk 2 c) (get 2 c) (get-Safe chunk 2 c i e))
          (λ r h. elim (Bool-cases (r.0 == minus_one16)) [
            | inl end_of_rows ↦ rw end_of_rows tt
            | inr more ↦ rw more (
                bind-SafeOr X (λ _. Unit) OptionRow (plus_oid overflow_checks has_oids r.0) _
                  (SafeOr-panics (λ _. Unit) (plus_oid overflow_checks has_oids r.0)
                    (λ p. (p.0, ap some p.1, omega (arith, e, ap length i.0), sym h.2 ∙ p.2))
                    (plus_oid-SafeOr overflow_checks has_oids r.0))
                  (λ n _.
                    Safe-implied X OptionRow (values_of types n r.1)
                      (values_of-Safe chunk types n r.1 few h.0)))
          ]))

-- An item is a panic only where `Panics` is so, and a row has its values in its buffer.
abbrev pub SafeItem : Type 0 → Item → Type 0
SafeItem Panics (returns none) = Unit
SafeItem Panics (returns (some (err e))) = Unit
SafeItem Panics (returns (some (ok row))) = IsRow row
SafeItem Panics panics = Panics
SafeItem Panics out_of_fuel = ⊥

item_of-SafeItem :
    (Panics : Type 0) (s : Step (Option BinaryCopyOutRow))
    → SafeOr Panics OptionRow s
    → SafeItem Panics (item_of s)
item_of-SafeItem Panics (returns (ok none)) h = tt
item_of-SafeItem Panics (returns (ok (some row))) h = h
item_of-SafeItem Panics (returns (err e)) h = tt
item_of-SafeItem Panics panics h = h
item_of-SafeItem Panics out_of_fuel h = h

module _ (overflow_checks : Bool) where
  on_header-SafeItem :
      (chunk : Bytes) (at : ℕ) (r : BinaryCopyOutStream) (s : Step (Bool × Cursor))
      → length r.types < 2 ^ 63
      → Safe (λ t. In chunk t.1 × (t.1.position ≡ at)) s
      → SafeItem
          (OverflowsIn overflow_checks chunk at (on_header overflow_checks r s).1.header)
          (on_header overflow_checks r s).0
  on_header-SafeItem chunk at r (returns (ok (has_oids, c))) few (i, at_is) =
      item_of-SafeItem _ (row_of overflow_checks r.types has_oids c) (
        subst
          (λ n.
            SafeOr (OverflowsIn overflow_checks chunk n (some has_oids)) OptionRow
              (row_of overflow_checks r.types has_oids c))
          at_is (row_of-SafeOr overflow_checks chunk r.types has_oids c few i))
  on_header-SafeItem chunk at r (returns (err e)) few h = tt
  on_header-SafeItem chunk at r panics few h = absurd h
  on_header-SafeItem chunk at r out_of_fuel few h = h

  SafeItem-panics : {X Y : Type 0} (item : Item) → (X → Y) → SafeItem X item → SafeItem Y item
  SafeItem-panics (returns none) f h = tt
  SafeItem-panics (returns (some (err e))) f h = tt
  SafeItem-panics (returns (some (ok row))) f h = h
  SafeItem-panics panics f h = f h
  SafeItem-panics out_of_fuel f h = h

  on_chunk-SafeItem :
      (r : BinaryCopyOutStream) (o : Option (Result Error Bytes))
      → length r.types < 2 ^ 63
      → SafeItem
          ((chunk : Bytes) × (o ≡ some (ok chunk))
            × OverflowsIn overflow_checks chunk
                (values_start chunk r.header)
                (on_chunk overflow_checks r o).1.header)
          (on_chunk overflow_checks r o).0
  on_chunk-SafeItem r (some (ok chunk)) few =
      SafeItem-panics (on_chunk overflow_checks r (some (ok chunk))).0 (λ x. (chunk, refl, x))
        (on_header-SafeItem chunk (values_start chunk r.header) r
          (header_of r.header (cursor chunk 0)) few (header_of-Safe chunk r.header))
  on_chunk-SafeItem r (some (err e)) few = tt
  on_chunk-SafeItem r none few = tt

  -- `len += 1` overflows for the number of values of the chunk that the server sent.
  abbrev pub Overflows : BinaryCopyOutStream → Type 0
  Overflows r =
      (chunk : Bytes) × ((out_next r.stream).0 ≡ some (ok chunk))
      × OverflowsIn overflow_checks chunk (values_start chunk r.header)
          (next overflow_checks r).1.header

  -- Whatever bytes the server sends, reading the next row does not panic in a build without overflow
  -- checks; with them it panics only if the stream has object identifiers and the chunk holds the
  -- greatest `i16` as its number of values. A row has a value for every type, each null or a range
  -- within its buffer. The types are as many as a vector can hold.
  pub next-SafeItem :
      (r : BinaryCopyOutStream)
      → length r.types < 2 ^ 63
      → SafeItem (Overflows r) (next overflow_checks r).0
  unfolding next
  next-SafeItem r few =
      let (chunk, replies) = out_next r.stream in
      on_chunk-SafeItem (record r { stream = replies }) chunk few

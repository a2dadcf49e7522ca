-- ===== src/Copy/Binary/Rows.antt =====
-- The values of a row that the reader of src/binary_copy.rs returns can be read.
use may_postgres.Base.{
  Bool, ℕ, zero, suc, ◌<◌, ◌^◌, List, [], ◌∷◌, ◌≡◌, refl, Option, none, some, arith, length,
  get_elem?, Bytes, ok, returns,
}
use mathlib.Core.Path.{subst}
use may_postgres.Protocol.{ByteRange}
use may_postgres.Row.{FromSql}
use may_postgres.Row.Lookup.{AllInside, Returns, of_range-Returns, if_Returns}
use may_postgres.Copy.Binary.{BinaryCopyOutRow, BinaryCopyOutStream, next, of_type, try_get}
use may_postgres.Copy.Binary.Cursors.{Ranges}
use may_postgres.Copy.Binary.Bounds.{IsRow, SafeItem, Overflows, next-SafeItem}

Ranges-AllInside :
    (buf : Bytes) (ranges : List (Option ByteRange))
    → Ranges buf ranges
    → AllInside (length buf) ranges
Ranges-AllInside buf [] h = tt
Ranges-AllInside buf (none ∷ ranges) h = Ranges-AllInside buf ranges h.1
Ranges-AllInside buf (some r ∷ ranges) h = (h.0.0, h.0.1, Ranges-AllInside buf ranges h.1)

get_elem?-lt : (types : List ℕ) (i : ℕ) {ty : ℕ} → get_elem? types i ≡ some ty → i < length types
get_elem?-lt [] i e = absurd (ground (arith, e))
get_elem?-lt (ty ∷ types) zero e = omega arith
get_elem?-lt (ty ∷ types) (suc i) e = omega (arith, get_elem?-lt types i e)

module _ {T : Type 0} (sql : FromSql T) where
  of_type-Returns :
      (i : ℕ) (row : BinaryCopyOutRow) (o : Option ℕ)
      → IsRow row
      → get_elem? row.types i ≡ o
      → Returns sql (of_type sql i row o)
  of_type-Returns i row none h e = (_, refl)
  of_type-Returns i row (some ty) h e =
      if_Returns sql (sql.accepts ty)
        (of_range-Returns sql i i ty row.buf row.ranges
          (Ranges-AllInside row.buf row.ranges h.in_buffer)
          (omega (arith, h.as_many, get_elem?-lt row.types i e)))
        (_, refl)

  -- Reading a value of a row that `next` returned does not panic, whatever bytes the server sent and
  -- whatever the index and the type asked for are.
  pub next-try_get :
      (overflow_checks : Bool) (r : BinaryCopyOutStream) (row : BinaryCopyOutRow) (i : ℕ)
      → length r.types < 2 ^ 63
      → (next overflow_checks r).0 ≡ returns (some (ok row))
      → Returns sql (try_get sql i row)
  next-try_get overflow_checks r row i few e =
      of_type-Returns i row (get_elem? row.types i)
        (subst (SafeItem (Overflows overflow_checks r)) e (next-SafeItem overflow_checks r few))
        refl

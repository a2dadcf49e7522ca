-- ===== src/Tests/Columns.antt =====
-- A row of two columns whose names differ in case.
use may_postgres.Base.{
  [], ◌∷◌, ◌≡◌, refl, true, arith, Option, none, some, Bytes, codes, text_eq, ok, returns,
}
use may_postgres.Protocol.{finished}
use may_postgres.Error.{foreign}
use may_postgres.Client.Query.{Row}
use may_postgres.Row.{FromSql, position, index_of_name, get_by_name}
use may_postgres.Row.Lookup.{
  Resolves, index_of_name-Resolves, IsWhole, Returns, get_by_name-Returns,
}

abbrev row : Row
row = record {
  statement = record {
    name = codes "s0";
    params = [];
    columns =
        record { name = codes "Id"; type_ = 23 } ∷ record { name = codes "id"; type_ = 23 } ∷ [];
  };
  body = record { buffer = 1 ∷ 2 ∷ []; ranges = finished };
  ranges = some (record { start = 0; end = 1 }) ∷ some (record { start = 1; end = 2 }) ∷ [];
}

-- NULL is read as no bytes.
abbrev to_bytes : Option Bytes → Bytes
to_bytes none = []
to_bytes (some bytes) = bytes

abbrev bytes_sql : FromSql Bytes
bytes_sql = record {
  accepts = λ ty. true;
  wrong_type = foreign 0;
  from_sql_nullable = λ ty value. ok (to_bytes value);
}

row-IsWhole : IsWhole row
row-IsWhole = record {
  as_many = omega arith;
  inside = (omega arith, omega arith, (omega arith, omega arith, tt));
}

exact_first : get_by_name bytes_sql (codes "id") row ≡ returns (ok (2 ∷ []))
unfolding get_by_name index_of_name position text_eq
exact_first = refl

index_of_name-Resolves_example :
    Resolves
      (codes "ID")
      (codes "Id" ∷ codes "id" ∷ [])
      (index_of_name (codes "ID") (codes "Id" ∷ codes "id" ∷ []))
index_of_name-Resolves_example = index_of_name-Resolves (codes "ID") (codes "Id" ∷ codes "id" ∷ [])

get_by_name-Returns_example : Returns bytes_sql (get_by_name bytes_sql (codes "ID") row)
get_by_name-Returns_example = get_by_name-Returns bytes_sql (codes "ID") row row-IsWhole

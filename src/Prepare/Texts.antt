-- ===== src/Prepare/Texts.antt =====
-- src/prepare.rs: the texts of the queries for a type.
use may_postgres.Base.{◌∷◌, ◌++◌, [], Text, codes}

abbrev line : Text → Text → Text
line text more = text ++ (10 ∷ more)

abbrev pub typeinfo_query : Text
typeinfo_query =
    line
      (codes
        "SELECT t.typname, t.typtype, t.typelem, r.rngsubtype, t.typbasetype, n.nspname, t.typrelid")
      (line (codes "FROM pg_catalog.pg_type t") (
        line (codes "LEFT OUTER JOIN pg_catalog.pg_range r ON r.rngtypid = t.oid") (
          line (codes "INNER JOIN pg_catalog.pg_namespace n ON t.typnamespace = n.oid")
            (line (codes "WHERE t.oid = $1") []))))

abbrev pub typeinfo_fallback_query : Text
typeinfo_fallback_query =
    line
      (codes
        "SELECT t.typname, t.typtype, t.typelem, NULL::OID, t.typbasetype, n.nspname, t.typrelid")
      (line (codes "FROM pg_catalog.pg_type t") (
        line (codes "INNER JOIN pg_catalog.pg_namespace n ON t.typnamespace = n.oid")
          (line (codes "WHERE t.oid = $1") [])))

abbrev pub typeinfo_enum_query : Text
typeinfo_enum_query = line (codes "SELECT enumlabel") (
    line (codes "FROM pg_catalog.pg_enum")
      (line (codes "WHERE enumtypid = $1") (line (codes "ORDER BY enumsortorder") [])))

abbrev pub typeinfo_enum_fallback_query : Text
typeinfo_enum_fallback_query = line (codes "SELECT enumlabel") (
    line (codes "FROM pg_catalog.pg_enum")
      (line (codes "WHERE enumtypid = $1") (line (codes "ORDER BY oid") [])))

abbrev pub typeinfo_composite_query : Text
typeinfo_composite_query = line (codes "SELECT attname, atttypid") (
    line (codes "FROM pg_catalog.pg_attribute") (
      line (codes "WHERE attrelid = $1") (
        line (codes "AND NOT attisdropped")
          (line (codes "AND attnum > 0") (line (codes "ORDER BY attnum") [])))))

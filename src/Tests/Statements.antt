-- ===== src/Tests/Statements.antt =====
-- The answers to the statements of a simple query.
use may_postgres.Base.{List, [], ◌∷◌, ◌≡◌, some, codes, returns}
use may_postgres.Protocol.{item, finished}
use may_postgres.Client.Simple.{simple_query}
use may_postgres.Client.Simple.Framing.{
  Answer, row_set, command, empty_query, replies_of, messages_of, simple_query-replies_of,
}

abbrev answers : List Answer
answers =
    command (codes "CREATE TABLE")
    ∷ row_set ((codes "n", 23) ∷ [])
        (record {
          buffer = b'1' ∷ [];
          ranges = item (some (record { start = 0; end = 1 })) finished;
        }
          ∷ [])
        (codes "SELECT 1")
    ∷ command (codes "INSERT 0 2")
    ∷ empty_query
    ∷ row_set [] [] (codes "SELECT 0")
    ∷ []

simple_query-replies_of_example :
    simple_query (replies_of answers []) ≡ returns (messages_of answers)
simple_query-replies_of_example = simple_query-replies_of answers []

-- ===== src/Tests/Strings.antt =====
-- Connection strings.
use may_postgres.Base.{ℕ, List, [], ◌∷◌, ◌≡◌, refl, Text, codes, returns, ok}
use may_postgres.Config.{new, param}
use may_postgres.Config.Valid.{Sound}
use may_postgres.Config.KeyValue.{parse}
use may_postgres.Config.KeyValue.Ends.{parse-Sound}
use may_postgres.Config.KeyValue.Printing.{print, Keys, params, parse-print}

abbrev pairs : List (Text × Text)
pairs = (codes "user", codes "it's") ∷ (codes "port", codes "5433,") ∷ []

pairs-Keys : Keys pairs
unfolding may_postgres.Config.KeyValue.is_keyword_char may_postgres.Base.is_whitespace
pairs-Keys = ((refl, (refl, (refl, (refl, tt)))), ((refl, (refl, (refl, (refl, tt)))), tt))

parse-print_example : parse (print pairs) ≡ params pairs new
parse-print_example = parse-print pairs pairs-Keys

parse-Sound_example : Sound (parse (codes "host=localhost port=5433"))
parse-Sound_example = parse-Sound (codes "host=localhost port=5433")

-- ===== src/Config/KeyValue.antt =====
-- The key-value format of connection strings: `Parser` of src/config.rs.
pub mod Shrinks
pub mod Ends
pub mod Printing
use may_postgres.Base.{
  ℕ, zero, suc, ◌+◌, Bool, true, false, not, ◌||◌, List, [], ◌∷◌, ◌++◌, Option, none, some, ◌==◌,
  if◌then◌else◌, length, Text, codes, is_whitespace, utf8_char, Result, ok, err, ◌>>=◌, returns,
  out_of_fuel,
}
use may_postgres.Error.{Error, message, unexpected_character, config_parse_error}
use may_postgres.Config
use may_postgres.Config.{Config, Step, new, param}

-- `it` is what the iterator has left, `position` the byte at which it stands.
pub record Parser : Type 0 where
  pub position : ℕ
  pub it : Text

abbrev pub at : ℕ → Text → Parser
at n s = record { position = n; it = s }

unfoldable pub width : ℕ → ℕ
width c = length (utf8_char c)

abbrev cons_taken : ℕ → Text × Parser → Text × Parser
cons_taken c (s, p) = (c ∷ s, p)

unfoldable pub take_from : (ℕ → Bool) → ℕ → Text → Text × Parser
take_from f n [] = ([], at n [])
take_from f n (c ∷ cs) =
    let more = take_from f (n + width c) cs in
    if f c then cons_taken c more else ([], at n (c ∷ cs))

abbrev pub take_while : (ℕ → Bool) → Parser → Text × Parser
take_while f p = take_from f p.position p.it

abbrev pub skip_ws : Parser → Parser
skip_ws p = (take_while is_whitespace p).1

abbrev pub unexpected_eof : Error
unexpected_eof = config_parse_error (message (codes "unexpected EOF"))

unfoldable pub eat_from : ℕ → ℕ → Text → Result Error Parser
eat_from target n [] = err unexpected_eof
eat_from target n (c ∷ cs) =
    if c == target
    then ok (at (n + width c) cs)
    else err (config_parse_error (unexpected_character n target c))

abbrev pub eat : ℕ → Parser → Result Error Parser
eat target p = eat_from target p.position p.it

unfoldable pub eat_if_from : ℕ → ℕ → Text → Bool × Parser
eat_if_from target n [] = (false, at n [])
eat_if_from target n (c ∷ cs) =
    if c == target then (true, at (n + width c) cs) else (false, at n (c ∷ cs))

abbrev pub eat_if : ℕ → Parser → Bool × Parser
eat_if target p = eat_if_from target p.position p.it

unfoldable pub is_keyword_char : ℕ → Bool
is_keyword_char c = not (is_whitespace c || c == b'=')

abbrev pub nonempty : Text × Parser → Option Text × Parser
nonempty ([], p) = (none, p)
nonempty (c ∷ s, p) = (some (c ∷ s), p)

abbrev pub keyword : Parser → Option Text × Parser
keyword p = nonempty (take_while is_keyword_char p)

-- The loop of `simple_value`: the characters pushed.
unfoldable pub simple_loop : ℕ → Text → Text × Parser
simple_loop n [] = ([], at n [])
simple_loop n (c ∷ []) =
    if is_whitespace c
    then ([], at n (c ∷ []))
    else if c == b'\\'
    then ([], at (n + width c) [])
    else (c ∷ [], at (n + width c) [])
simple_loop n (c ∷ c2 ∷ cs) = elim (is_whitespace c) [
  | true ↦ ([], at n (c ∷ c2 ∷ cs))
  | false ↦ elim (c == b'\\') [
    | true ↦ cons_taken c2 (simple_loop (n + width c + width c2) cs)
    | false ↦ cons_taken c (simple_loop (n + width c) (c2 ∷ cs))
  ]
]

abbrev pub or_eof : Text × Parser → Result Error (Text × Parser)
or_eof ([], p) = err unexpected_eof
or_eof (c ∷ s, p) = ok (c ∷ s, p)

abbrev pub simple_value : Parser → Result Error (Text × Parser)
simple_value p = or_eof (simple_loop p.position p.it)

abbrev pub unterminated : Error
unterminated = config_parse_error (message (codes "unterminated quoted connection parameter value"))

abbrev pub cons_value : ℕ → Result Error (Text × Parser) → Result Error (Text × Parser)
cons_value c (err e) = err e
cons_value c (ok (s, p)) = ok (c ∷ s, p)

-- The loop of `quoted_value`.
unfoldable pub quoted_from : ℕ → Text → Result Error (Text × Parser)
quoted_from n [] = err unterminated
quoted_from n (c ∷ []) = if c == b'\'' then ok ([], at n (c ∷ [])) else err unterminated
quoted_from n (c ∷ c2 ∷ cs) = elim (c == b'\'') [
  | true ↦ ok ([], at n (c ∷ c2 ∷ cs))
  | false ↦ elim (c == b'\\') [
    | true ↦ cons_value c2 (quoted_from (n + width c + width c2) cs)
    | false ↦ cons_value c (quoted_from (n + width c) (c2 ∷ cs))
  ]
]

abbrev pub quoted_value : Parser → Result Error (Text × Parser)
quoted_value p = quoted_from p.position p.it

unfoldable pub value_of : Bool × Parser → Result Error (Text × Parser)
value_of (true, p) = do (v, p1) ← quoted_value p; p2 ← eat b'\'' p1; ok (v, p2)
value_of (false, p) = simple_value p

abbrev pub value : Parser → Result Error (Text × Parser)
value p = value_of (eat_if b'\'' p)

unfoldable pub parameter_of : Option Text × Parser → Result Error (Option (Text × Text) × Parser)
parameter_of (none, p) = ok (none, p)
parameter_of (some key, p) = do
  p1 ← eat b'=' (skip_ws p)
  (v, p2) ← value (skip_ws p1)
  ok (some (key, v), p2)

abbrev pub parameter : Parser → Result Error (Option (Text × Text) × Parser)
parameter p = parameter_of (keyword (skip_ws p))

-- The body of the loop of `parse`.
abbrev pub on_parameter :
    Result Error (Option (Text × Text) × Parser)
    → Config
    → (Parser → Config → Step Config)
    → Step Config
on_parameter (err e) c continue = returns (err e)
on_parameter (ok (none, _)) c continue = returns (ok c)
on_parameter (ok (some (key, v), p)) c continue = Config.◌>>=◌ (param key v c) (continue p)

unfoldable pub parse_loop : ℕ → Parser → Config → Step Config
parse_loop zero p c = out_of_fuel
parse_loop (suc fuel) p c = on_parameter (parameter p) c (parse_loop fuel)

-- `Parser::parse`
unfoldable pub parse : Text → Step Config
parse s = parse_loop (suc (length s)) (at 0 s) new

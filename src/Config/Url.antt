-- ===== src/Config/Url.antt =====
-- URL connection strings: `UrlParser` of src/config.rs. Percent decoding is the crate
-- percent_encoding's, a parameter.
pub mod Gives
pub mod Ends
pub mod Printing
pub mod Scanning
pub mod Reads
pub mod Query
pub mod RoundTrip
pub mod Coding
pub mod Encoded
use may_postgres.Base.{
  ℕ, zero, suc, Bool, true, false, ◌||◌, List, [], ◌∷◌, ◌++◌, Option, none, some, ◌==◌,
  if◌then◌else◌, length, Bytes, Text, codes, text_eq, split, starts_with, as_bytes, err, ok,
  returns, panics, out_of_fuel,
}
use may_postgres.Base.Utf8.{from_utf8}
use may_postgres.Error.{message, utf8_error, config_parse_error}
use may_postgres.Config
use may_postgres.Config.{Config, Step, ◌>>=◌, invalid, add_host, param}
use may_postgres.Config.KeyValue.{width}

pub record UrlParser : Type 0 where
  pub s : Text
  pub config : Config

abbrev pub parser : Text → Config → UrlParser
parser s c = record { s = s; config = c }

-- `str::strip_prefix` by a text and by a character.
unfoldable pub strip_prefix : Text → Text → Option Text
strip_prefix [] s = some s
strip_prefix (_ ∷ _) [] = none
strip_prefix (p ∷ ps) (c ∷ s) = let more = strip_prefix ps s in if c == p then more else none

abbrev pub or_stripped : Option Text → Option Text → Option Text
or_stripped (some s) other = some s
or_stripped none other = other

abbrev pub remove_url_prefix : Text → Option Text
remove_url_prefix s =
    or_stripped (strip_prefix (codes "postgres://") s) (strip_prefix (codes "postgresql://") s)

abbrev pub cons_head : ℕ → Option (Text × Text) → Option (Text × Text)
cons_head c none = none
cons_head c (some (head, tail)) = some (c ∷ head, tail)

-- `find` with `split_at`: what stands before the first character of the class, and the rest.
unfoldable pub split_at_first : (ℕ → Bool) → Text → Option (Text × Text)
split_at_first end [] = none
split_at_first end (c ∷ cs) =
    let more = cons_head c (split_at_first end cs) in if end c then some ([], c ∷ cs) else more

abbrev pub is_at : ℕ → Bool
is_at c = c == b'@'

abbrev pub is_bracket : ℕ → Bool
is_bracket c = c == b']'

abbrev pub is_slash_or_mark : ℕ → Bool
is_slash_or_mark c = c == b'/' || c == b'?'

abbrev pub is_mark : ℕ → Bool
is_mark c = c == b'?'

abbrev pub is_equals : ℕ → Bool
is_equals c = c == b'='

abbrev pub is_ampersand : ℕ → Bool
is_ampersand c = c == b'&'

-- `self.s = &self.s[1..]` panics at the end and inside a character.
unfoldable pub eat_byte : UrlParser → Step UrlParser
eat_byte p = elim p.s [
  | [] ↦ panics
  | c ∷ cs ↦ if width c == 1 then returns (ok (parser cs p.config)) else panics
]

-- `splitn(2, ':')`
abbrev with_first : ℕ → Text × Option Text → Text × Option Text
with_first c (head, tail) = (c ∷ head, tail)

unfoldable pub split_once : ℕ → Text → Text × Option Text
split_once at [] = ([], none)
split_once at (c ∷ cs) =
    let more = split_once at cs in if c == at then ([], some cs) else with_first c more

abbrev pub utf8_or_error : Option Text → Step Text
utf8_or_error none = returns (err (config_parse_error utf8_error))
utf8_or_error (some s) = returns (ok s)

-- The chunk after its opening bracket.
abbrev pub port_after : Text → Text → Step (Text × Option Text)
port_after host [] = returns (ok (host, none))
port_after host (c ∷ cs) =
    if c == b':' then returns (ok (host, some cs)) else invalid (codes "host")

abbrev pub bracketed : Option (Text × Text) → Step (Text × Option Text)
bracketed none = invalid (codes "host")
bracketed (some (host, [])) = panics
bracketed (some (host, _ ∷ remaining)) = port_after host remaining

unfoldable pub host_and_port : Text → Step (Text × Option Text)
host_and_port [] = returns (ok ([], none))
host_and_port (c ∷ cs) =
    if c == b'['
    then bracketed (split_at_first is_bracket cs)
    else returns (ok (split_once b':' (c ∷ cs)))

abbrev pub or_default : Option Text → Text
or_default none = codes "5432"
or_default (some port) = port

-- What `take_until` finds, or all that is left.
abbrev pub or_all : Text → Option (Text × Text) → Text × Text
or_all s none = (s, [])
or_all s (some t) = t

module _ (percent_decode : Bytes → Bytes) where
  abbrev pub decode : Text → Step Text
  decode s = utf8_or_error (from_utf8 (percent_decode (as_bytes s)))

  -- On Unix.
  abbrev pub host_param : Text → Config → Step Config
  host_param s c =
      let decoded = percent_decode (as_bytes s) in
      if starts_with b'/' decoded
      then panics
      else utf8_or_error (from_utf8 decoded) >>= λ host. add_host host c

  abbrev pub set_password : Option Text → Config → Config
  set_password none c = c
  set_password (some s) c = record c { password = some (percent_decode (as_bytes s)) }

  abbrev pub set_credentials : Text × Option Text → Config → Step Config
  set_credentials (user, password) c =
      decode user >>= λ name. returns (ok (set_password password (record c { user = some name })))

  abbrev pub credentials_of : Option (Text × Text) → UrlParser → Step UrlParser
  credentials_of none p = returns (ok p)
  credentials_of (some (creds, tail)) p = do
    p1 ← eat_byte (parser tail p.config)
    c ← set_credentials (split_once b':' creds) p1.config
    returns (ok (parser p1.s c))

  abbrev pub parse_credentials : UrlParser → Step UrlParser
  parse_credentials p = credentials_of (split_at_first is_at p.s) p

  abbrev pub set_host : Text × Option Text → Config → Step Config
  set_host (host, port) c = do
    c1 ← host_param host c
    port ← decode (or_default port)
    param (codes "port") port c1

  unfoldable pub add_chunks : List Text → Config → Step Config
  unfolding host_and_port
  add_chunks [] c = returns (ok c)
  add_chunks (chunk ∷ chunks) c = host_and_port chunk >>= λ t. set_host t c >>= add_chunks chunks

  abbrev pub hosts_of : Text → Config → Step Config
  hosts_of [] c = returns (ok c)
  hosts_of (h ∷ host) c = add_chunks (split b',' (h ∷ host)) c

  abbrev pub parse_host : UrlParser → Step UrlParser
  parse_host p =
      let (host, rest) = or_all p.s (split_at_first is_slash_or_mark p.s) in
      hosts_of host p.config >>= λ c. returns (ok (parser rest c))

  abbrev pub set_dbname : Text → Config → Step Config
  set_dbname [] c = returns (ok c)
  set_dbname (d ∷ dbname) c =
      decode (d ∷ dbname) >>= λ name. returns (ok (record c { dbname = some name }))

  abbrev pub path_after : UrlParser → Step UrlParser
  path_after p =
      let (dbname, rest) = or_all p.s (split_at_first is_mark p.s) in
      set_dbname dbname p.config >>= λ c. returns (ok (parser rest c))

  abbrev pub parse_path : UrlParser → Step UrlParser
  parse_path p = if starts_with b'/' p.s then eat_byte p >>= path_after else returns (ok p)

  abbrev pub set_pair : Text → Text → Config → Step Config
  set_pair key value c =
      if text_eq key (codes "host")
      then host_param value c
      else decode value >>= λ decoded. param key decoded c

  -- What stands behind a value: the ampersand is eaten.
  abbrev pub value_of : Option (Text × Text) → UrlParser → Step (Text × UrlParser)
  value_of none p = returns (ok (p.s, parser [] p.config))
  value_of (some (value, tail)) p = eat_byte (parser tail p.config) >>= λ q. returns (ok (value, q))

  abbrev pub pair_of : Option (Text × Text) → UrlParser → Step UrlParser
  pair_of none p = returns (err (config_parse_error (message (codes "unterminated parameter"))))
  pair_of (some (name, tail)) p = do
    key ← decode name
    p1 ← eat_byte (parser tail p.config)
    (value, p2) ← value_of (split_at_first is_ampersand p1.s) p1
    c ← set_pair key value p2.config
    returns (ok (parser p2.s c))

  -- The loop of `parse_params`.
  unfoldable pub params_loop : ℕ → UrlParser → Step UrlParser
  unfolding split_at_first
  params_loop zero p = out_of_fuel
  params_loop (suc fuel) p = elim p.s [
    | [] ↦ returns (ok p)
    | _ ∷ _ ↦ pair_of (split_at_first is_equals p.s) p >>= params_loop fuel
  ]

  abbrev pub params_after : UrlParser → Step UrlParser
  params_after p = params_loop (suc (length p.s)) p

  abbrev pub parse_params : UrlParser → Step UrlParser
  parse_params p = if starts_with b'?' p.s then eat_byte p >>= params_after else returns (ok p)

  abbrev pub parse_stripped : Option Text → Step (Option Config)
  parse_stripped none = returns (ok none)
  parse_stripped (some s) = do
    p1 ← parse_credentials (parser s Config.new)
    p2 ← parse_host p1
    p3 ← parse_path p2
    p4 ← parse_params p3
    returns (ok (some p4.config))

  -- `UrlParser::parse`
  unfoldable pub parse : Text → Step (Option Config)
  parse s = parse_stripped (remove_url_prefix s)

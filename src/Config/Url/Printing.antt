-- ===== src/Config/Url/Printing.antt =====
-- URLs by their parts, their text, and what `UrlParser` of src/config.rs has to make of them.
use may_postgres.Base.{
  ℕ, Bool, true, false, List, [], ◌∷◌, ◌++◌, ◌≡◌, Option, none, some, ◌==◌, Bytes, Text, codes, ok,
  returns,
}
use may_postgres.Config.{Config, Step, ◌>>=◌, new}
use may_postgres.Config.Url.{
  is_at, is_bracket, is_slash_or_mark, is_mark, is_equals, is_ampersand, decode, set_credentials,
  set_host, set_dbname, set_pair,
}

-- A host with its port, or an address in brackets with its port.
pub data Chunk : Type 0 where
  plain in_brackets : Text → Option Text → Chunk

-- All parts as they stand in the text, encoded.
pub record Url : Type 0 where
  pub long_scheme : Bool
  pub credentials : Option (Text × Option Text)
  pub hosts : List Chunk
  pub path : Option Text
  pub query : List (Text × Text)

abbrev pub scheme : Bool → Text
scheme false = codes "postgres://"
scheme true = codes "postgresql://"

abbrev pub after_colon : Option Text → Text
after_colon none = []
after_colon (some s) = b':' ∷ s

abbrev pub print_credentials : Option (Text × Option Text) → Text
print_credentials none = []
print_credentials (some (user, password)) = (user ++ after_colon password) ++ b'@' ∷ []

abbrev pub print_chunk : Chunk → Text
print_chunk (plain host port) = host ++ after_colon port
print_chunk (in_brackets host port) = b'[' ∷ (host ++ b']' ∷ after_colon port)

unfoldable pub print_hosts : List Chunk → Text
print_hosts [] = []
print_hosts (chunk ∷ []) = print_chunk chunk
print_hosts (chunk ∷ next ∷ chunks) = print_chunk chunk ++ b',' ∷ print_hosts (next ∷ chunks)

abbrev pub print_path : Option Text → Text
print_path none = []
print_path (some dbname) = b'/' ∷ dbname

unfoldable pub print_pairs : List (Text × Text) → Text
print_pairs [] = []
print_pairs ((key, v) ∷ []) = key ++ b'=' ∷ v
print_pairs ((key, v) ∷ next ∷ pairs) = key ++ b'=' ∷ (v ++ b'&' ∷ print_pairs (next ∷ pairs))

abbrev pub print_query : List (Text × Text) → Text
print_query [] = []
print_query (pair ∷ pairs) = b'?' ∷ print_pairs (pair ∷ pairs)

-- What follows the credentials.
abbrev pub print_rest : Url → Text
print_rest u = print_hosts u.hosts ++ (print_path u.path ++ print_query u.query)

abbrev pub print : Url → Text
print u = scheme u.long_scheme ++ (print_credentials u.credentials ++ print_rest u)

-- No character of the class.
abbrev pub Without : (ℕ → Bool) → Text → Type 0
Without f [] = Unit
Without f (c ∷ cs) = (f c ≡ false) × Without f cs

abbrev pub is_colon : ℕ → Bool
is_colon c = c == b':'

abbrev pub is_comma : ℕ → Bool
is_comma c = c == b','

abbrev pub is_opening : ℕ → Bool
is_opening c = c == b'['

abbrev pub IsCredentials : Option (Text × Option Text) → Text → Type 0
IsCredentials none rest = Without is_at rest
IsCredentials (some (user, none)) rest = Without is_at user × Without is_colon user
IsCredentials (some (user, some password)) rest =
    Without is_at user × Without is_colon user × Without is_at password

-- A plain host has no colon and does not begin with a bracket.
abbrev pub IsChunk : Chunk → Type 0
IsChunk (plain [] port) = ⊥
IsChunk (plain (c ∷ host) port) = (is_opening c ≡ false) × Without is_colon (c ∷ host)
IsChunk (in_brackets host port) = Without is_bracket host

abbrev pub Chunks : List Chunk → Type 0
Chunks [] = Unit
Chunks (chunk ∷ chunks) = IsChunk chunk × Without is_comma (print_chunk chunk) × Chunks chunks

abbrev pub IsPath : Option Text → Type 0
IsPath none = Unit
IsPath (some dbname) = Without is_mark dbname

abbrev pub Pairs : List (Text × Text) → Type 0
Pairs [] = Unit
Pairs ((key, v) ∷ pairs) = Without is_equals key × Without is_ampersand v × Pairs pairs

-- The delimiters stand where they delimit; without credentials there is no at sign anywhere.
pub record IsUrl (u : Url) : Type 0 where
  pub credentials : IsCredentials u.credentials (print_rest u)
  pub hosts : Chunks u.hosts
  pub authority : Without is_slash_or_mark (print_hosts u.hosts)
  pub path : IsPath u.path
  pub query : Pairs u.query

abbrev pub parts : Chunk → Text × Option Text
parts (plain host port) = (host, port)
parts (in_brackets host port) = (host, port)

-- Percent decoding every part and handing it to its setter, from left to right.
module _ (percent_decode : Bytes → Bytes) where
  abbrev pub with_credentials : Option (Text × Option Text) → Config → Step Config
  with_credentials none c = returns (ok c)
  with_credentials (some t) c = set_credentials percent_decode t c

  abbrev pub with_hosts : List Chunk → Config → Step Config
  with_hosts [] c = returns (ok c)
  with_hosts (chunk ∷ chunks) c = set_host percent_decode (parts chunk) c >>= with_hosts chunks

  abbrev pub with_path : Option Text → Config → Step Config
  with_path none c = returns (ok c)
  with_path (some dbname) c = set_dbname percent_decode dbname c

  abbrev pub with_pairs : List (Text × Text) → Config → Step Config
  with_pairs [] c = returns (ok c)
  with_pairs ((key, v) ∷ pairs) c =
      decode percent_decode key >>= λ k. set_pair percent_decode k v c >>= with_pairs pairs

  unfoldable pub build : Url → Step Config
  build u = do
    c1 ← with_credentials u.credentials new
    c2 ← with_hosts u.hosts c1
    c3 ← with_path u.path c2
    with_pairs u.query c3

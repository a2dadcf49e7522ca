-- ===== src/Config/Strings.antt =====
-- `Config::from_str` of src/config.rs: a URL, else the key-value format.
use may_postgres.Base.{Option, none, some, Bytes, Text, ok, returns}
use may_postgres.Config.{Config, Step, ◌>>=◌}
use may_postgres.Config.KeyValue
use may_postgres.Config.Url

abbrev pub or_key_value : Text → Option Config → Step Config
or_key_value s (some c) = returns (ok c)
or_key_value s none = KeyValue.parse s

unfoldable pub from_str : (Bytes → Bytes) → Text → Step Config
from_str percent_decode s = Url.parse percent_decode s >>= or_key_value s

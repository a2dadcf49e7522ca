-- ===== src/Config.antt =====
-- src/config.rs: the connection configuration, its setters and `Config::param`.
pub mod Valid
pub mod KeyValue
pub mod Url
pub mod Strings
use may_postgres.Base.{
  ℕ, zero, suc, ◌+◌, ◌*◌, ◌-◌, ◌^◌, Bool, true, false, not, List, [], ◌∷◌, ◌++◌, Option, none, some,
  ◌==◌, if◌then◌else◌, Bytes, Text, codes, text_eq, split, starts_with, as_bytes, Result, ok, err,
  Run, returns, panics, out_of_fuel,
}
use may_postgres.Base.Number.{ℤ, pos, negsuc, parse_unsigned, parse_signed}
use may_postgres.Error.{Error, invalid_value, unknown_option, config_parse_error}

pub data TargetSessionAttrs : Type 0 where
  any read_write : TargetSessionAttrs

pub data Host : Type 0 where
  tcp : Text → Host

-- Durations are in seconds.
pub record Config : Type 0 where
  pub user : Option Text
  pub password : Option Bytes
  pub dbname : Option Text
  pub options : Option Text
  pub application_name : Option Text
  pub host : List Host
  pub port : List ℕ
  pub connect_timeout : Option ℕ
  pub keepalives : Bool
  pub keepalives_idle : ℕ
  pub target_session_attrs : TargetSessionAttrs

abbrev pub new : Config
new = record {
  user = none;
  password = none;
  dbname = none;
  options = none;
  application_name = none;
  host = [];
  port = [];
  connect_timeout = none;
  keepalives = true;
  keepalives_idle = 2 * 60 * 60;
  target_session_attrs = any;
}

-- A step of a parser: a result, or the panic of `unimplemented!`.
abbrev pub Step : Type 0 → Type 0
Step A = Run (Result Error A)

infixl 5 ◌>>=◌
abbrev pub ◌>>=◌ : {A B : Type 0} → Step A → (A → Step B) → Step B
returns (ok a) >>= f = f a
returns (err e) >>= f = returns (err e)
panics >>= f = panics
out_of_fuel >>= f = out_of_fuel

abbrev pub invalid : {A : Type 0} → Text → Step A
invalid option = returns (err (config_parse_error (invalid_value option)))

-- `Config::host` on Unix, where `host_path` is not implemented.
unfoldable pub add_host : Text → Config → Step Config
add_host host c =
    if starts_with b'/' host
    then panics
    else returns (ok (record c { host = c.host ++ tcp host ∷ [] }))

-- The `for` loops of the arms "host" and "port".
unfoldable pub add_hosts : List Text → Config → Step Config
add_hosts [] c = returns (ok c)
add_hosts (host ∷ hosts) c = add_host host c >>= add_hosts hosts

abbrev pub u16_max : ℕ
u16_max = 2 ^ 16 - 1

unfoldable pub port_of : Text → Option ℕ
port_of [] = some 5432
port_of (c ∷ cs) = parse_unsigned u16_max (c ∷ cs)

abbrev pub port_or_invalid : Option ℕ → Step ℕ
port_or_invalid (some port) = returns (ok port)
port_or_invalid none = invalid (codes "port")

unfoldable pub add_ports : List Text → Config → Step Config
add_ports [] c = returns (ok c)
add_ports (port ∷ ports) c =
    port_or_invalid (port_of port) >>= λ n. add_ports ports (record c { port = c.port ++ n ∷ [] })

-- `i64` parsing in the arms "connect_timeout" and "keepalives_idle": only a positive value sets.
abbrev pub parse_i64 : Text → Option ℤ
parse_i64 = parse_signed (2 ^ 63) (2 ^ 63 - 1)

abbrev pub set_if_positive : Text → Option ℤ → (ℕ → Config) → Config → Step Config
set_if_positive option none set c = invalid option
set_if_positive option (some (pos (suc n))) set c = returns (ok (set (suc n)))
set_if_positive option (some (pos zero)) set c = returns (ok c)
set_if_positive option (some (negsuc n)) set c = returns (ok c)

abbrev pub set_keepalives : Option ℕ → Config → Step Config
set_keepalives none c = invalid (codes "keepalives")
set_keepalives (some n) c = returns (ok (record c { keepalives = not (n == 0) }))

-- The patterns of the `match` on the key.
pub data Key : Type 0 where
  user_key password_key dbname_key options_key application_name_key host_key port_key : Key
  connect_timeout_key keepalives_key keepalives_idle_key target_session_attrs_key : Key

abbrev pub key_name : Key → Text
key_name user_key = codes "user"
key_name password_key = codes "password"
key_name dbname_key = codes "dbname"
key_name options_key = codes "options"
key_name application_name_key = codes "application_name"
key_name host_key = codes "host"
key_name port_key = codes "port"
key_name connect_timeout_key = codes "connect_timeout"
key_name keepalives_key = codes "keepalives"
key_name keepalives_idle_key = codes "keepalives_idle"
key_name target_session_attrs_key = codes "target_session_attrs"

abbrev pub keys : List Key
keys =
    user_key ∷ password_key ∷ dbname_key ∷ options_key ∷ application_name_key ∷ host_key ∷ port_key
    ∷ connect_timeout_key ∷ keepalives_key ∷ keepalives_idle_key ∷ target_session_attrs_key ∷ []

unfoldable pub key_of : List Key → Text → Option Key
key_of [] name = none
key_of (key ∷ more) name =
    let later = key_of more name in if text_eq name (key_name key) then some key else later

unfoldable pub attrs_of : Text → Option TargetSessionAttrs
attrs_of value =
    if text_eq value (codes "any")
    then some any
    else if text_eq value (codes "read-write")
    then some read_write
    else none

abbrev pub set_attrs : Option TargetSessionAttrs → Config → Step Config
set_attrs none c = invalid (codes "target_session_attrs")
set_attrs (some attrs) c = returns (ok (record c { target_session_attrs = attrs }))

-- The arms of the `match`.
unfoldable pub set_param : Option Key → Text → Text → Config → Step Config
set_param (some user_key) key value c = returns (ok (record c { user = some value }))
set_param (some password_key) key value c =
    returns (ok (record c { password = some (as_bytes value) }))
set_param (some dbname_key) key value c = returns (ok (record c { dbname = some value }))
set_param (some options_key) key value c = returns (ok (record c { options = some value }))
set_param (some application_name_key) key value c =
    returns (ok (record c { application_name = some value }))
set_param (some host_key) key value c = add_hosts (split b',' value) c
set_param (some port_key) key value c = add_ports (split b',' value) c
set_param (some connect_timeout_key) key value c =
    set_if_positive (codes "connect_timeout") (parse_i64 value)
      (λ n. record c { connect_timeout = some n }) c
set_param (some keepalives_key) key value c = set_keepalives (parse_unsigned (2 ^ 64 - 1) value) c
set_param (some keepalives_idle_key) key value c =
    set_if_positive (codes "keepalives_idle") (parse_i64 value)
      (λ n. record c { keepalives_idle = n }) c
set_param (some target_session_attrs_key) key value c = set_attrs (attrs_of value) c
set_param none key value c = returns (err (config_parse_error (unknown_option key)))

-- `Config::param`
unfoldable pub param : Text → Text → Config → Step Config
param key value c = set_param (key_of keys key) key value c

-- ===== src/Config/Valid.antt =====
-- What `Config::param` of src/config.rs keeps true of a configuration.
use mathlib.Core.Path.{subst}
use may_postgres.Base.{
  ℕ, zero, suc, ◌^◌, ◌-◌, ◌≤◌, ◌<◌, false, List, [], ◌∷◌, ◌++◌, ◌≡◌, refl, not, Option, none, some,
  ◌==◌, arith, inl, inr, Bool-cases, Option-cases, Text, codes, split, starts_with, ok, err,
  returns, panics, out_of_fuel,
}
use may_postgres.Base.Number.{pos, negsuc, parse_unsigned, parse_unsigned-le, parse_signed-le}
use may_postgres.Config.{
  Config, Host, tcp, TargetSessionAttrs, any, read_write, new, Step, invalid, add_host, add_hosts,
  u16_max, port_of, port_or_invalid, add_ports, parse_i64, set_if_positive, set_keepalives, param,
  Key, user_key, password_key, dbname_key, options_key, application_name_key, host_key, port_key,
  connect_timeout_key, keepalives_key, keepalives_idle_key, target_session_attrs_key, key_of, keys,
  attrs_of, set_attrs, set_param,
}

abbrev pub Ports : List ℕ → Type 0
Ports [] = Unit
Ports (n ∷ ns) = (n ≤ u16_max) × Ports ns

-- A host that starts with a slash would be the path of a socket.
abbrev pub Hosts : List Host → Type 0
Hosts [] = Unit
Hosts (tcp h ∷ hs) = (starts_with b'/' h ≡ false) × Hosts hs

-- A number of seconds: positive and of type `i64`.
abbrev pub IsSeconds : ℕ → Type 0
IsSeconds n = (0 < n) × (n ≤ 2 ^ 63 - 1)

abbrev pub Timeout : Option ℕ → Type 0
Timeout none = Unit
Timeout (some n) = IsSeconds n

pub record IsValid (c : Config) : Type 0 where
  pub ports : Ports c.port
  pub hosts : Hosts c.host
  pub timeout : Timeout c.connect_timeout
  pub idle : IsSeconds c.keepalives_idle

-- A step that ends, and whose configuration is valid when it succeeds.
abbrev pub Sound : Step Config → Type 0
Sound (returns (ok c)) = IsValid c
Sound (returns (err _)) = Unit
Sound panics = Unit
Sound out_of_fuel = ⊥

pub new-IsValid : IsValid new
new-IsValid = record { ports = tt; hosts = tt; timeout = tt; idle = (omega arith, omega arith) }

Ports-snoc : (ns : List ℕ) (n : ℕ) → Ports ns → n ≤ u16_max → Ports (ns ++ n ∷ [])
Ports-snoc [] n h le = (le, tt)
Ports-snoc (m ∷ ns) n h le = (h.0, Ports-snoc ns n h.1 le)

Hosts-snoc :
    (hs : List Host) (h : Text) → Hosts hs → starts_with b'/' h ≡ false → Hosts (hs ++ tcp h ∷ [])
Hosts-snoc [] h all relative = (relative, tt)
Hosts-snoc (tcp g ∷ hs) h all relative = (all.0, Hosts-snoc hs h all.1 relative)

pub add_host-Sound : (h : Text) (c : Config) → IsValid c → Sound (add_host h c)
unfolding add_host
add_host-Sound h c v = elim (Bool-cases (starts_with b'/' h)) [
  | inl absolute ↦ rw absolute tt
  | inr relative ↦ rw relative (record {
    ports = v.ports;
    hosts = Hosts-snoc c.host h v.hosts relative;
    timeout = v.timeout;
    idle = v.idle;
  })
]

pub bind-Sound :
    (s : Step Config) (f : Config → Step Config)
    → Sound s
    → ((c : Config) → IsValid c → Sound (f c))
    → Sound (may_postgres.Config.◌>>=◌ s f)
bind-Sound (returns (ok c)) f h next = next c h
bind-Sound (returns (err e)) f h next = tt
bind-Sound panics f h next = tt
bind-Sound out_of_fuel f h next = h

add_hosts-Sound : (hs : List Text) (c : Config) → IsValid c → Sound (add_hosts hs c)
unfolding add_hosts
add_hosts-Sound [] c v = v
add_hosts-Sound (h ∷ hs) c v =
    bind-Sound (add_host h c) (add_hosts hs) (add_host-Sound h c v) (add_hosts-Sound hs)

port_of-le : (s : Text) (n : ℕ) → port_of s ≡ some n → n ≤ u16_max
unfolding port_of
port_of-le [] n e = ground arith
port_of-le (c ∷ cs) n e = parse_unsigned-le u16_max (c ∷ cs) e

add_ports-Sound : (ps : List Text) (c : Config) → IsValid c → Sound (add_ports ps c)
unfolding add_ports
add_ports-Sound [] c v = v
add_ports-Sound (p ∷ ps) c v = elim (Option-cases (port_of p)) [
  | inl e ↦ rw e tt
  | inr (n, e) ↦ rw e (
      add_ports-Sound ps (record c { port = c.port ++ n ∷ [] })
        (record {
          ports = Ports-snoc c.port n v.ports (port_of-le p n e);
          hosts = v.hosts;
          timeout = v.timeout;
          idle = v.idle;
        }))
]

pub kept :
    (c d : Config)
    → c.port ≡ d.port
    → c.host ≡ d.host
    → c.connect_timeout ≡ d.connect_timeout
    → c.keepalives_idle ≡ d.keepalives_idle
    → IsValid c
    → IsValid d
kept c d p h t i v = record {
  ports = subst Ports p v.ports;
  hosts = subst Hosts h v.hosts;
  timeout = subst Timeout t v.timeout;
  idle = subst IsSeconds i v.idle;
}

set_if_positive-Sound :
    (option : Text) (s : Text) (set : ℕ → Config) (c : Config)
    → ((n : ℕ) → IsSeconds n → IsValid (set n))
    → IsValid c
    → Sound (set_if_positive option (parse_i64 s) set c)
set_if_positive-Sound option s set c next v = elim (Option-cases (parse_i64 s)) [
  | inl e ↦ rw e tt
  | inr (pos zero, e) ↦ rw e v
  | inr (pos (suc n), e) ↦
      rw e (next (suc n) (omega arith, parse_signed-le (2 ^ 63) (2 ^ 63 - 1) s e))
  | inr (negsuc n, e) ↦ rw e v
]

set_keepalives-Sound : (o : Option ℕ) (c : Config) → IsValid c → Sound (set_keepalives o c)
set_keepalives-Sound none c v = tt
set_keepalives-Sound (some n) c v =
    kept c (record c { keepalives = not (n == 0) }) refl refl refl refl v

set_attrs-Sound :
    (attrs : Option TargetSessionAttrs) (c : Config) → IsValid c → Sound (set_attrs attrs c)
set_attrs-Sound none c v = tt
set_attrs-Sound (some attrs) c v =
    kept c (record c { target_session_attrs = attrs }) refl refl refl refl v

set_param-Sound :
    (k : Option Key) (key s : Text) (c : Config) → IsValid c → Sound (set_param k key s c)
unfolding set_param
set_param-Sound none key s c v = tt
set_param-Sound (some user_key) key s c v = kept c _ refl refl refl refl v
set_param-Sound (some password_key) key s c v = kept c _ refl refl refl refl v
set_param-Sound (some dbname_key) key s c v = kept c _ refl refl refl refl v
set_param-Sound (some options_key) key s c v = kept c _ refl refl refl refl v
set_param-Sound (some application_name_key) key s c v = kept c _ refl refl refl refl v
set_param-Sound (some host_key) key s c v = add_hosts-Sound (split b',' s) c v
set_param-Sound (some port_key) key s c v = add_ports-Sound (split b',' s) c v
set_param-Sound (some connect_timeout_key) key s c v =
    set_if_positive-Sound (codes "connect_timeout") s (λ n. record c { connect_timeout = some n }) c
      (λ n secs. record { ports = v.ports; hosts = v.hosts; timeout = secs; idle = v.idle }) v
set_param-Sound (some keepalives_key) key s c v =
    set_keepalives-Sound (parse_unsigned (2 ^ 64 - 1) s) c v
set_param-Sound (some keepalives_idle_key) key s c v =
    set_if_positive-Sound (codes "keepalives_idle") s (λ n. record c { keepalives_idle = n }) c
      (λ n secs. record { ports = v.ports; hosts = v.hosts; timeout = v.timeout; idle = secs }) v
set_param-Sound (some target_session_attrs_key) key s c v = set_attrs-Sound (attrs_of s) c v

pub param-Sound : (key s : Text) (c : Config) → IsValid c → Sound (param key s c)
unfolding param
param-Sound key s c v = set_param-Sound (key_of keys key) key s c v

-- ===== src/Connect.antt =====
-- src/connect.rs: the loop over the hosts of a configuration.
pub mod Hosts
pub mod Socket
pub mod Once
pub mod Writes
pub mod Attempts
pub mod Dialed
pub mod Checked
use may_postgres.Base.{
  ℕ, zero, suc, ◌+◌, ◌&&◌, not, List, [], ◌∷◌, Option, none, some, ltb, ◌==◌, if◌then◌else◌, length,
  get_elem?, codes, Result, ok, err, Run, returns, panics, out_of_fuel,
}
use may_postgres.Error.{Error, message, config_error}
use may_postgres.Config.{Config, Host}

-- `connect_once`: opens a socket, starts a session on it and checks what the configuration asks of
-- it. `State` is what it changes.
pub record Opener (C : Type 0) : Type 1 where
  pub State : Type 0
  pub connect_once : Host → ℕ → State → Run (Result Error C) × State

abbrev or_else : Option ℕ → Option ℕ → Option ℕ
or_else (some n) other = some n
or_else none other = other

abbrev unwrap_or : Option ℕ → ℕ → ℕ
unwrap_or (some n) default_ = n
unwrap_or none default_ = default_

-- `*config.port.get(i).or_else(|| config.port.get(0)).unwrap_or(&5432)`
unfoldable pub port_for : List ℕ → ℕ → ℕ
port_for ports i = unwrap_or (or_else (get_elem? ports i) (get_elem? ports 0)) 5432

abbrev pub host_missing : Error
host_missing = config_error (message (codes "host missing"))

abbrev pub wrong_ports : Error
wrong_ports = config_error (message (codes "invalid number of ports"))

module _ {C : Type 0} (opener : Opener C) where
  open opener use {State, connect_once}

  abbrev pub Outcome : Type 0
  Outcome = Run (Result Error C) × State

  abbrev pub on_attempt : Outcome → (Error → State → Outcome) → Outcome
  on_attempt (returns (ok client), s) continue = (returns (ok client), s)
  on_attempt (returns (err e), s) continue = continue e s
  on_attempt (panics, s) continue = (panics, s)
  on_attempt (out_of_fuel, s) continue = (out_of_fuel, s)

  -- `Err(error.unwrap())`
  abbrev pub last_error : Option Error → State → Outcome
  last_error (some e) s = (returns (err e), s)
  last_error none s = (panics, s)

  unfoldable pub connect_loop : List ℕ → ℕ → List Host → Option Error → State → Outcome
  connect_loop ports i [] error s = last_error error s
  connect_loop ports i (host ∷ hosts) error s =
      on_attempt (connect_once host (port_for ports i) s)
        (λ e. connect_loop ports (suc i) hosts (some e))

  -- The checks of `connect`, and the loop.
  abbrev pub connect_hosts : List Host → List ℕ → State → Outcome
  connect_hosts [] ports s = (returns (err host_missing), s)
  connect_hosts (host ∷ hosts) ports s =
      if ltb 1 (length ports) && not (length ports == length (host ∷ hosts))
      then (returns (err wrong_ports), s)
      else connect_loop ports 0 (host ∷ hosts) none s

  unfoldable pub connect : Config → State → Outcome
  connect config s = connect_hosts config.host config.port s

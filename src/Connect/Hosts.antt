-- ===== src/Connect/Hosts.antt =====
-- Which port src/connect.rs tries for a host, and in which order.
use mathlib.Core.Path.{subst}
use may_postgres.Base.{
  ℕ, zero, suc, true, List, [], ◌∷◌, ◌++◌, ◌≡◌, refl, append_assoc, arith, inl, inr, Bool-cases,
  ==_iff, Option, none, some, ltb, ◌==◌, if◌then◌else◌, length, length-append, get_elem?, ok, err,
  returns, panics, out_of_fuel,
}
use may_postgres.Error.{Error}
use may_postgres.Config.{Config, Host}
use may_postgres.Connect.{
  Opener, port_for, host_missing, wrong_ports, Outcome, on_attempt, connect_loop, connect_hosts,
  connect,
}

-- The same port for every host.
abbrev pub all_of : ℕ → List Host → List ℕ
all_of port [] = []
all_of port (host ∷ hosts) = port ∷ all_of port hosts

-- The ports of the hosts: the default, the only port, or one for each host.
abbrev pub ports_of : List Host → List ℕ → Option (List ℕ)
ports_of hosts [] = some (all_of 5432 hosts)
ports_of hosts (port ∷ []) = some (all_of port hosts)
ports_of hosts (port ∷ port2 ∷ ports) =
    if length (port ∷ port2 ∷ ports) == length hosts then some (port ∷ port2 ∷ ports) else none

-- `ports` are the ports that the loop takes from round `i` on.
abbrev PortsFrom : List ℕ → ℕ → List Host → List ℕ → Type 0
PortsFrom configured i [] ports = Unit
PortsFrom configured i (host ∷ hosts) [] = ⊥
PortsFrom configured i (host ∷ hosts) (port ∷ ports) =
    (port_for configured i ≡ port) × PortsFrom configured (suc i) hosts ports

no_ports-PortsFrom : (i : ℕ) (hosts : List Host) → PortsFrom [] i hosts (all_of 5432 hosts)
unfolding port_for
no_ports-PortsFrom i [] = tt
no_ports-PortsFrom i (host ∷ hosts) = (refl, no_ports-PortsFrom (suc i) hosts)

one_port : (port i : ℕ) → port_for (port ∷ []) i ≡ port
unfolding port_for
one_port port zero = refl
one_port port (suc i) = refl

one_port-PortsFrom :
    (port i : ℕ) (hosts : List Host) → PortsFrom (port ∷ []) i hosts (all_of port hosts)
one_port-PortsFrom port i [] = tt
one_port-PortsFrom port i (host ∷ hosts) = (one_port port i, one_port-PortsFrom port (suc i) hosts)

get_elem?-length :
    (before : List ℕ) (port : ℕ) (after : List ℕ)
    → get_elem? (before ++ port ∷ after) (length before) ≡ some port
get_elem?-length [] port after = refl
get_elem?-length (_ ∷ before) port after = get_elem?-length before port after

own_port :
    (before : List ℕ) (port : ℕ) (after : List ℕ)
    → port_for (before ++ port ∷ after) (length before) ≡ port
unfolding port_for
own_port before port after = rw (get_elem?-length before port after) refl

own_ports-PortsFrom :
    (before ports : List ℕ) (hosts : List Host)
    → length ports ≡ length hosts
    → PortsFrom (before ++ ports) (length before) hosts ports
own_ports-PortsFrom before ports [] h = tt
own_ports-PortsFrom before [] (host ∷ hosts) h = absurd (omega arith)
own_ports-PortsFrom before (port ∷ ports) (host ∷ hosts) h =
    let longer : length (before ++ port ∷ []) ≡ suc (length before) =
      omega (arith, length-append before (port ∷ [])) in
    (
      own_port before port ports,
      subst (λ l. PortsFrom l (suc (length before)) hosts ports)
          (append_assoc before (port ∷ []) ports)
          (subst (λ n. PortsFrom ((before ++ port ∷ []) ++ ports) n hosts ports) longer
            (own_ports-PortsFrom (before ++ port ∷ []) ports hosts (omega (arith, h)))),
    )

module _ {C : Type 0} (opener : Opener C) where
  open opener use {State, connect_once}

  -- How trying hosts with their ports ends, when the last error so far is `error`: each is tried
  -- only if the one before it failed, a client ends it, and so does a panic; behind the last host
  -- the last error is returned.
  pub data Tries : List Host → List ℕ → Option Error → State → Outcome opener → Type 0 where
    accepted :
        {host : Host} {hosts : List Host} {port : ℕ} {ports : List ℕ} {error : Option Error}
        {s t : State} {client : C}
        → connect_once host port s ≡ (returns (ok client), t)
        → Tries (host ∷ hosts) (port ∷ ports) error s (returns (ok client), t)
    refused :
        {host : Host} {hosts : List Host} {port : ℕ} {ports : List ℕ} {error : Option Error}
        {s t : State} {e : Error} {r : Outcome opener}
        → connect_once host port s ≡ (returns (err e), t)
        → Tries hosts ports (some e) t r
        → Tries (host ∷ hosts) (port ∷ ports) error s r
    panicked :
        {host : Host} {hosts : List Host} {port : ℕ} {ports : List ℕ} {error : Option Error}
        {s t : State}
        → connect_once host port s ≡ (panics, t)
        → Tries (host ∷ hosts) (port ∷ ports) error s (panics, t)
    endless :
        {host : Host} {hosts : List Host} {port : ℕ} {ports : List ℕ} {error : Option Error}
        {s t : State}
        → connect_once host port s ≡ (out_of_fuel, t)
        → Tries (host ∷ hosts) (port ∷ ports) error s (out_of_fuel, t)
    none_left :
        {ports : List ℕ} {s : State} {e : Error} → Tries [] ports (some e) s (returns (err e), s)

  abbrev pub Expected : List Host → Option (List ℕ) → State → Outcome opener → Type 0
  Expected [] ports s r = r ≡ (returns (err host_missing), s)
  Expected (host ∷ hosts) none s r = r ≡ (returns (err wrong_ports), s)
  Expected (host ∷ hosts) (some ports) s r = Tries (host ∷ hosts) ports none s r

  on_attempt-Tries :
      (host : Host) (hosts : List Host) (port : ℕ) (ports : List ℕ) (error : Option Error)
      (s : State) (r : Outcome opener) (continue : Error → State → Outcome opener)
      → connect_once host port s ≡ r
      → ((e : Error) (u : State) → Tries hosts ports (some e) u (continue e u))
      → Tries (host ∷ hosts) (port ∷ ports) error s (on_attempt opener r continue)
  on_attempt-Tries host hosts port ports error s (returns (ok client), t) continue e h = accepted e
  on_attempt-Tries host hosts port ports error s (returns (err x), t) continue e h =
      refused e (h x t)
  on_attempt-Tries host hosts port ports error s (panics, t) continue e h = panicked e
  on_attempt-Tries host hosts port ports error s (out_of_fuel, t) continue e h = endless e

  -- There is a host to come, or an error to return.
  abbrev SomeLeft : List Host → Option Error → Type 0
  SomeLeft [] none = ⊥
  SomeLeft [] (some e) = Unit
  SomeLeft (host ∷ hosts) error = Unit

  some_error : (hosts : List Host) (e : Error) → SomeLeft hosts (some e)
  some_error [] e = tt
  some_error (host ∷ hosts) e = tt

  connect_loop-Tries :
      (configured : List ℕ) (i : ℕ) (hosts : List Host) (ports : List ℕ) (error : Option Error)
      (s : State)
      → PortsFrom configured i hosts ports
      → SomeLeft hosts error
      → Tries hosts ports error s (connect_loop opener configured i hosts error s)
  unfolding connect_loop
  connect_loop-Tries configured i [] ports none s h left = absurd left
  connect_loop-Tries configured i [] ports (some e) s h left = none_left
  connect_loop-Tries configured i (host ∷ hosts) [] error s h left = absurd h
  connect_loop-Tries configured i (host ∷ hosts) (port ∷ ports) error s h left = rw h.0 (
      on_attempt-Tries host hosts port ports error s (connect_once host port s) _ refl (λ e u.
        connect_loop-Tries configured (suc i) hosts ports (some e) u h.1 (some_error hosts e)))

  several : (port port2 : ℕ) (ports : List ℕ) → ltb 1 (length (port ∷ port2 ∷ ports)) ≡ true
  several port port2 ports = ground arith

  hosts-Expected :
      (hosts : List Host) (ports : List ℕ) (s : State)
      → Expected hosts (ports_of hosts ports) s (connect_hosts opener hosts ports s)
  hosts-Expected [] ports s = refl
  hosts-Expected (host ∷ hosts) [] s =
      connect_loop-Tries [] 0 (host ∷ hosts) (all_of 5432 (host ∷ hosts)) none s
        (no_ports-PortsFrom 0 (host ∷ hosts)) tt
  hosts-Expected (host ∷ hosts) (port ∷ []) s =
      connect_loop-Tries (port ∷ []) 0 (host ∷ hosts) (all_of port (host ∷ hosts)) none s
        (one_port-PortsFrom port 0 (host ∷ hosts)) tt
  hosts-Expected (host ∷ hosts) (port ∷ port2 ∷ ports) s =
      elim (Bool-cases (length (port ∷ port2 ∷ ports) == length (host ∷ hosts))) [
        | inl same ↦
            rw (several port port2 ports, same)
              (connect_loop-Tries (port ∷ port2 ∷ ports) 0 (host ∷ hosts) (port ∷ port2 ∷ ports)
                none s
                (own_ports-PortsFrom [] (port ∷ port2 ∷ ports) (host ∷ hosts) ((==_iff _ _).0 same))
                tt)
        | inr other ↦ rw (several port port2 ports, other) refl
      ]

  -- `connect` rejects a configuration without hosts, and one whose ports are several but not as many
  -- as its hosts. Otherwise it tries the hosts in order, each with the only port, its own port, or
  -- 5432 when there is none: a host is tried when the one before it returned an error, the first
  -- client is returned, and behind the last host the last error.
  pub connect-Expected :
      (config : Config) (s : State)
      → Expected config.host (ports_of config.host config.port) s (connect opener config s)
  unfolding connect
  connect-Expected config s = hosts-Expected config.host config.port s

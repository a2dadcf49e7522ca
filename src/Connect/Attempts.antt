-- ===== src/Connect/Attempts.antt =====
-- The attempt by which the loop of src/connect.rs returns a client.
use may_postgres.Base.{
  ℕ, List, [], ◌∷◌, ◌≡◌, refl, ap, ◌∙◌, Option, none, some, arith, inl, inr, ◌⊎◌, ok, returns,
}
use may_postgres.Error.{Error}
use may_postgres.Config.{Config, Host}
use may_postgres.Connect.{Opener, Outcome, connect}
use may_postgres.Connect.Hosts.{
  ports_of, Tries, accepted, refused, panicked, endless, none_left, Expected, connect-Expected,
}

-- One of the hosts with its port.
abbrev pub Paired : Host → ℕ → List Host → List ℕ → Type 0
Paired h p [] ports = ⊥
Paired h p (host ∷ hosts) [] = ⊥
Paired h p (host ∷ hosts) (port ∷ ports) = ((h ≡ host) × (p ≡ port)) ⊎ Paired h p hosts ports

-- The attempt at a host and its port by which `connect` returned.
pub record Attempt {C : Type 0} (opener : Opener C) (hosts : List Host) (ports : List ℕ)
    (client : C) : Type 0 where
  pub host : Host
  pub port : ℕ
  pub before : opener.State
  pub after : opener.State
  pub pair_is : Paired host port hosts ports
  pub result_is : opener.connect_once host port before ≡ (returns (ok client), after)

module _ {C : Type 0} (opener : Opener C) where
  further :
      {hosts : List Host} {ports : List ℕ} {client : C} (host : Host) (port : ℕ)
      → Attempt opener hosts ports client
      → Attempt opener (host ∷ hosts) (port ∷ ports) client
  further host port a = record {
    host = a.host;
    port = a.port;
    before = a.before;
    after = a.after;
    pair_is = inr a.pair_is;
    result_is = a.result_is;
  }

  Tries-Attempt :
      {hosts : List Host} {ports : List ℕ} {error : Option Error} {s : opener.State}
      {r : Outcome opener} {found : C} {last : opener.State}
      → Tries opener hosts ports error s r
      → r ≡ (returns (ok found), last)
      → Attempt opener hosts ports found
  Tries-Attempt (accepted {host} {port} {s} {t} e) h = record {
    host = host;
    port = port;
    before = s;
    after = t;
    pair_is = inl (refl, refl);
    result_is = e ∙ ap (λ p. (p.0, t)) h;
  }
  Tries-Attempt (refused {host} {port} e more) h = further host port (Tries-Attempt more h)
  Tries-Attempt (panicked e) h = absurd (ground (arith, ap (λ p. p.0) h))
  Tries-Attempt (endless e) h = absurd (ground (arith, ap (λ p. p.0) h))
  Tries-Attempt none_left h = absurd (ground (arith, ap (λ p. p.0) h))

  Expected-Attempt :
      (hosts : List Host) (o : Option (List ℕ)) (s : opener.State) (r : Outcome opener) {client : C}
      {t : opener.State}
      → Expected opener hosts o s r
      → r ≡ (returns (ok client), t)
      → (ports : List ℕ) × (o ≡ some ports) × Attempt opener hosts ports client
  Expected-Attempt [] o s r e h = absurd (ground (arith, ap (λ p. p.0) e, ap (λ p. p.0) h))
  Expected-Attempt (host ∷ hosts) none s r e h =
      absurd (ground (arith, ap (λ p. p.0) e, ap (λ p. p.0) h))
  Expected-Attempt (host ∷ hosts) (some ports) s r e h = (ports, refl, Tries-Attempt e h)

  pub connect-Attempt :
      (config : Config) (s : opener.State) {client : C} {t : opener.State}
      → connect opener config s ≡ (returns (ok client), t)
      → (ports : List ℕ) × (ports_of config.host config.port ≡ some ports)
        × Attempt opener config.host ports client
  connect-Attempt config s h =
      Expected-Attempt config.host (ports_of config.host config.port) s (connect opener config s)
        (connect-Expected opener config s) h

-- ===== src/Connect/Checked.antt =====
-- What stands behind a client that `connect` of src/connect.rs returns.
use may_postgres.Base.{
  List, some, ℕ, ◌≡◌, refl, sym, ap, ◌∙◌, Option, arith, Text, Result, ok, err, returns,
}
use may_postgres.Error.{Error}
use may_postgres.Config.{Config, Host}
use may_postgres.Row.{FromSql}
use may_postgres.Session.{Authentication, Stream, Client, connect_raw}
use may_postgres.Session.Start.{Starts, connect_raw-Starts}
use may_postgres.Connect.{connect}
use may_postgres.Connect.Socket.{Network, connect_socket}
use may_postgres.Connect.Once.{
  Connected, Server, show_query, check_target, socket_config_of, on_session, on_socket,
  connect_once, opener,
}
use may_postgres.Connect.Writes.{MayWrite, check_target-MayWrite, connected-eq-ok}
use may_postgres.Connect.Hosts.{ports_of}
use may_postgres.Connect.Attempts.{Paired, connect-Attempt}
use may_postgres.Connect.Dialed.{Dialed, connect_socket-Dialed}

-- A client, the host and port that its socket was opened to, and the session behind it.
pub record Checked (net : Network) (server : Server net.Socket) (auth : Authentication)
    (sql : FromSql (Option Text)) (config : Config) (host : Host) (port : ℕ) (c : Connected)
    : Type 0 where
  pub socket : net.Socket
  pub dialed : Dialed net host port config.connect_timeout socket
  pub ended : Stream
  pub session : Starts auth config (server.stream socket) c.client ended
  pub target : MayWrite sql config.target_session_attrs (server.simple_query_raw socket show_query)
  pub socket_config_is : c.socket_config ≡ socket_config_of config host port

module _ (net : Network) (server : Server net.Socket) (auth : Authentication)
    (sql : FromSql (Option Text)) (config : Config) where
  on_session-Checked :
      (host : Host) (port : ℕ) (socket : net.Socket) (r : Result Error Client × Stream)
      {c : Connected}
      → Dialed net host port config.connect_timeout socket
      → connect_raw auth config (server.stream socket) ≡ r
      → on_session net server auth sql config host port socket r ≡ returns (ok c)
      → Checked net server auth sql config host port c
  on_session-Checked host port socket (err e, u) d same h = absurd (ground (arith, h))
  on_session-Checked host port socket (ok client, u) {c} d same h =
      let replies = server.simple_query_raw socket show_query in
      let (checked, client_same, config_same) =
        connected-eq-ok (socket_config_of config host port) client
          (check_target sql config.target_session_attrs replies) h in
      record {
        socket = socket;
        dialed = d;
        ended = u;
        session =
            connect_raw-Starts auth config (server.stream socket)
              (same ∙ ap (λ d. (ok d, u)) (sym client_same));
        target = check_target-MayWrite sql config.target_session_attrs replies checked;
        socket_config_is = config_same;
      }

  on_socket-Checked :
      (host : Host) (port : ℕ) (r : Result Error net.Socket × net.State) {c : Connected}
      {t : net.State}
      → ((socket : net.Socket)
          → r.0 ≡ ok socket
          → Dialed net host port config.connect_timeout socket)
      → on_socket net server auth sql config host port r ≡ (returns (ok c), t)
      → Checked net server auth sql config host port c
  on_socket-Checked host port (err e, s) d h = absurd (ground (arith, ap (λ p. p.0) h))
  on_socket-Checked host port (ok socket, s) d h =
      on_session-Checked host port socket (connect_raw auth config (server.stream socket))
        (d socket refl) refl (ap (λ p. p.0) h)

  connect_once-Checked :
      (host : Host) (port : ℕ) (s : net.State) {c : Connected} {t : net.State}
      → connect_once net server auth sql config host port s ≡ (returns (ok c), t)
      → Checked net server auth sql config host port c
  unfolding connect_once
  connect_once-Checked host port s h =
      on_socket-Checked host port (connect_socket net host port config.connect_timeout s)
        (λ socket e.
          connect_socket-Dialed net host port config.connect_timeout s
            (ap (λ r. (r, (connect_socket net host port config.connect_timeout s).1)) e))
        h

  -- If `connect` returns a client, then its socket was opened to an address of one of the configured
  -- hosts with the port of that host, the client stands behind a whole start of a session on it, and
  -- if the configuration asks for a session that may write, then the first row of the answer to
  -- SHOW transaction_read_only does not say "on".
  pub connect-Checked :
      (s : net.State) {c : Connected} {t : net.State}
      → connect (opener net server auth sql config) config s ≡ (returns (ok c), t)
      → (host : Host) × (port : ℕ) × ((ports : List ℕ) × (ports_of config.host config.port
            ≡ some ports)
          × Paired host port config.host ports)
        × Checked net server auth sql config host port c
  connect-Checked s h =
      let (ports, ports_are, a) = connect-Attempt (opener net server auth sql config) config s h in
      (
        a.host,
        a.port,
        (ports, ports_are, a.pair_is),
        connect_once-Checked a.host a.port a.before a.result_is,
      )

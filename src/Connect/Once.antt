-- ===== src/Connect/Once.antt =====
-- `connect_once` of src/connect.rs: a socket, the start of a session, and whether it may write.
use may_postgres.Base.{
  ℕ, zero, suc, Bool, false, List, Option, none, some, length, if◌then◌else◌, codes, Text, text_eq,
  Result, ok, err, Run, returns, panics, out_of_fuel,
}
use may_postgres.Protocol.{permission_denied}
use may_postgres.Error.{Error, connect_error, unexpected_message_error}
use may_postgres.Config.{Config, Host, TargetSessionAttrs, any, read_write}
use may_postgres.Client.Query.{Replies}
use may_postgres.Client.Simple
use may_postgres.Client.Simple.{SimpleQueryRow, row, command_done, simple_next}
use may_postgres.Row.{FromSql}
use may_postgres.Row.Simple.{simple_by_number}
use may_postgres.Session.{Authentication, Stream, Client, connect_raw}
use may_postgres.Connect.{Opener}
use may_postgres.Connect.Socket.{Network, connect_socket}

-- `SocketConfig` of src/client.rs.
pub record SocketConfig : Type 0 where
  pub host : Host
  pub port : ℕ
  pub connect_timeout : Option ℕ
  pub keepalives : Bool
  pub keepalives_idle : ℕ

-- A client with its socket configuration.
pub record Connected : Type 0 where
  pub client : Client
  pub socket_config : SocketConfig

-- The server behind a socket: the stream of its session's start, and what `simple_query_raw` of
-- a text returns then.
pub record Server (Socket : Type 0) : Type 0 where
  pub stream : Socket → Stream
  pub simple_query_raw : Socket → Text → Result Error Replies

abbrev pub show_query : Text
show_query = codes "SHOW transaction_read_only"

abbrev pub no_writes : Error
no_writes =
    connect_error
      (record { kind = permission_denied; text = codes "database does not allow writes" })

abbrev pub is_on : Option Text → Bool
is_on none = false
is_on (some value) = text_eq value (codes "on")

-- `if row.try_get(0)? == Some("on")`
abbrev pub on_value : Run (Result Error (Option Text)) → Run (Result Error Unit)
on_value (returns (ok value)) = returns (if is_on value then err no_writes else ok tt)
on_value (returns (err e)) = returns (err e)
on_value panics = panics
on_value out_of_fuel = out_of_fuel

module _ (sql : FromSql (Option Text)) where
  -- The body of the loop.
  abbrev pub on_result :
      Simple.Step
      → (Replies → Option (List Text) → Run (Result Error Unit))
      → Run (Result Error Unit)
  on_result (none, _) continue = returns (err unexpected_message_error)
  on_result (some (err e), _) continue = returns (err e)
  on_result (some (ok (row r)), _) continue = on_value (simple_by_number sql 0 r)
  on_result (some (ok (command_done _)), (columns, replies)) continue = continue replies columns

  unfoldable pub writes_loop : ℕ → Replies → Option (List Text) → Run (Result Error Unit)
  writes_loop zero replies columns = out_of_fuel
  writes_loop (suc fuel) replies columns =
      on_result (simple_next replies columns) (writes_loop fuel)

  abbrev pub check_writes : Result Error Replies → Run (Result Error Unit)
  check_writes (err e) = returns (err e)
  check_writes (ok replies) = writes_loop (suc (length replies)) replies none

  abbrev pub check_target : TargetSessionAttrs → Result Error Replies → Run (Result Error Unit)
  check_target any replies = returns (ok tt)
  check_target read_write replies = check_writes replies

abbrev pub socket_config_of : Config → Host → ℕ → SocketConfig
socket_config_of config host port = record {
  host = host;
  port = port;
  connect_timeout = config.connect_timeout;
  keepalives = config.keepalives;
  keepalives_idle = config.keepalives_idle;
}

abbrev pub connected :
    SocketConfig → Client → Run (Result Error Unit) → Run (Result Error Connected)
connected c client (returns (ok _)) = returns (ok (record { client = client; socket_config = c }))
connected c client (returns (err e)) = returns (err e)
connected c client panics = panics
connected c client out_of_fuel = out_of_fuel

module _ (net : Network) (server : Server net.Socket) (auth : Authentication)
    (sql : FromSql (Option Text)) where
  abbrev pub on_session :
      Config → Host → ℕ → net.Socket → Result Error Client × Stream → Run (Result Error Connected)
  on_session config host port socket (err e, _) = returns (err e)
  on_session config host port socket (ok client, _) =
      connected (socket_config_of config host port) client
        (check_target sql config.target_session_attrs (server.simple_query_raw socket show_query))

  abbrev pub on_socket :
      Config
      → Host
      → ℕ
      → Result Error net.Socket × net.State
      → Run (Result Error Connected) × net.State
  on_socket config host port (err e, s) = (returns (err e), s)
  on_socket config host port (ok socket, s) =
      (on_session config host port socket (connect_raw auth config (server.stream socket)), s)

  unfoldable pub connect_once :
      Config → Host → ℕ → net.State → Run (Result Error Connected) × net.State
  unfolding connect_raw connect_socket
  connect_once config host port s =
      on_socket config host port (connect_socket net host port config.connect_timeout s)

  -- What `connect` of src/connect.rs is run with.
  abbrev pub opener : Config → Opener Connected
  opener config = record { State = net.State; connect_once = connect_once config }

-- ===== src/Tests/Starting.antt =====
-- A session that starts with SCRAM, and a connection to the second of two hosts that may write.
use may_postgres.Base.{
  ℕ, Bool, true, false, List, [], ◌∷◌, ◌++◌, ◌≡◌, refl, Option, none, some, Bytes, Text, codes,
  text_eq, if◌then◌else◌, ◌+◌, Result, ok, err, returns,
}
use may_postgres.Protocol.{
  IoError, Items, finished, item, Message, Protocol, authentication_ok, authentication_sasl,
  authentication_sasl_continue, authentication_sasl_final, command_complete, data_row,
  row_description, notice_response, ready_for_query, other,
}
use may_postgres.Error.{foreign}
use may_postgres.Codec.{normal, async}
use may_postgres.Config.{Config, Host, tcp, new, read_write}
use may_postgres.Client.Query.{Replies}
use may_postgres.Row.{FromSql}
use may_postgres.Session.{Authentication, Stream, client_of, connect_raw, no_info, scram_sha_256}
use may_postgres.Session.Talks.{received}
use may_postgres.Session.Handshake.{Handshake, scram}
use may_postgres.Session.Reports.{Report, key, status, notice, ready, report_all}
use may_postgres.Session.Start.{Starts, stream, connect_raw-Starts, connect_raw-Handshake}
use may_postgres.Session.Batches.{
  StartupStream, next_msg, Spread, buffered, batch, single, failure, end_of_stream, Answers,
  startup_next-Answers,
}
use may_postgres.Connect.{connect}
use may_postgres.Connect.Socket.{Network}
use may_postgres.Connect.Once.{Connected, Server, opener, socket_config_of}
use may_postgres.Connect.Hosts.{ports_of}
use may_postgres.Connect.Attempts.{Paired}
use may_postgres.Connect.Checked.{Checked, connect-Checked}

-- The state of the exchange is the password; the server's messages are ignored.
abbrev auth : Authentication
auth = record {
  startup_message = λ params. ok (0 ∷ []);
  password_message = λ password. ok (b'p' ∷ password);
  sasl_initial_response = λ mechanism m. ok (b'i' ∷ m);
  sasl_response = λ m. ok (b'r' ∷ m);
  md5_hash = λ user password salt. user;
  Scram = Bytes;
  scram_new = λ password. password;
  scram_message = λ s. s;
  scram_update = λ data_ s. ok (data_ ++ s);
  scram_finish = λ data_ s. ok tt;
}

abbrev config : Config
config = record new {
  user = some (codes "me");
  password = some (7 ∷ []);
  host = tcp (codes "a") ∷ tcp (codes "b") ∷ [];
  target_session_attrs = read_write;
}

abbrev mechanisms : Items Text
mechanisms = item (codes "SCRAM-SHA-256-PLUS") (item scram_sha_256 finished)

abbrev messages : List Message
messages =
    authentication_sasl mechanisms
    ∷ authentication_sasl_continue (1 ∷ [])
    ∷ authentication_sasl_final (2 ∷ [])
    ∷ authentication_ok
    ∷ []

abbrev answers : List Bytes
answers = (b'i' ∷ 7 ∷ []) ∷ (b'r' ∷ 1 ∷ 7 ∷ []) ∷ []

shakes : Handshake auth config messages answers
unfolding may_postgres.Base.text_eq
shakes =
    scram mechanisms (7 ∷ []) (b'i' ∷ 7 ∷ []) (1 ∷ []) (1 ∷ 7 ∷ []) (b'r' ∷ 1 ∷ 7 ∷ []) (2 ∷ [])
      (codes "SCRAM-SHA-256-PLUS" ∷ scram_sha_256 ∷ [], refl, refl) refl refl refl refl refl

abbrev reports : List Report
reports =
    status (codes "TimeZone") (codes "UTC")
    ∷ key 1 2
    ∷ notice
    ∷ status (codes "TimeZone") (codes "GMT")
    ∷ []

abbrev start : Stream
start = stream (received messages ++ (received (ready reports) ++ [])) []

started :
    connect_raw auth config start
    ≡ (ok (client_of (report_all no_info reports)), stream [] ((0 ∷ []) ∷ answers))
started = connect_raw-Handshake auth config (0 ∷ []) messages answers reports [] [] refl shakes

connect_raw-Handshake_example :
    connect_raw auth config start
    ≡ (ok (client_of (report_all no_info reports)), stream [] ((0 ∷ []) ∷ answers))
connect_raw-Handshake_example =
    connect_raw-Handshake auth config (0 ∷ []) messages answers reports [] [] refl shakes

connect_raw-Starts_example :
    Starts auth config start
      (client_of (report_all no_info reports))
      (stream [] ((0 ∷ []) ∷ answers))
connect_raw-Starts_example = connect_raw-Starts auth config start started

-- A byte is a message.
abbrev take_message : Bytes → Option (Message × Bytes)
take_message [] = none
take_message (b ∷ bs) = some (notice_response, bs)

abbrev protocol : Protocol
protocol = record {
  parse_header = λ bs. ok none;
  parse_message = λ bs. ok (take_message bs);
  behind_error = λ bs. [];
}

abbrev timed_out : IoError
timed_out = record { kind = other; text = codes "timed out" }

abbrev startup_stream : StartupStream
startup_stream = record {
  inner =
      ok (normal [] false)
      ∷ ok (normal (1 ∷ 2 ∷ []) true)
      ∷ ok (async authentication_ok)
      ∷ err timed_out
      ∷ [];
  buf = [];
}

abbrev all_messages : List (Result IoError Message)
all_messages = ok notice_response ∷ ok notice_response ∷ ok authentication_ok ∷ err timed_out ∷ []

spread : Spread protocol startup_stream.inner startup_stream.buf all_messages
spread = batch false refl (
    batch true refl (
      buffered notice_response (2 ∷ []) refl (
        buffered notice_response [] refl
          (single authentication_ok refl (failure timed_out refl (end_of_stream refl))))))

startup_next-Answers_example : Answers protocol all_messages (next_msg protocol startup_stream)
startup_next-Answers_example = startup_next-Answers protocol startup_stream all_messages spread

-- Only the second host is reached; the state is the number of attempts.
abbrev network : Network
network = record {
  State = ℕ;
  Address = Text;
  Socket = Unit;
  parse_ip = λ host port. none;
  to_socket_addrs = λ host port s. (ok (host ∷ []), s);
  connect =
      λ address timeout s. (if text_eq address (codes "b") then ok tt else err timed_out, s + 1);
  set_nodelay = λ socket s. (ok tt, s);
}

-- The row of `SHOW transaction_read_only`.
abbrev replies : Replies
replies =
    ok (row_description (item (codes "transaction_read_only", 25) finished))
    ∷ ok (
        data_row (record {
          buffer = codes "off";
          ranges = item (some (record { start = 0; end = 3 })) finished;
        }))
    ∷ ok (command_complete (ok (codes "SHOW")))
    ∷ ok ready_for_query
    ∷ []

abbrev server : Server Unit
server = record { stream = λ socket. start; simple_query_raw = λ socket query. ok replies }

abbrev ascii : FromSql (Option Text)
ascii = record {
  accepts = λ ty. true;
  wrong_type = foreign 0;
  from_sql_nullable = λ ty bytes. ok bytes;
}

abbrev client : Connected
client = record {
  client = client_of (report_all no_info reports);
  socket_config = socket_config_of config (tcp (codes "b")) 5432;
}

reached : connect (opener network server auth ascii config) config 0 ≡ (returns (ok client), 2)
unfolding connect may_postgres.Connect.connect_loop may_postgres.Connect.Once.connect_once
    may_postgres.Connect.Socket.address_loop text_eq may_postgres.Connect.Once.writes_loop
    may_postgres.Client.Simple.simple_next may_postgres.Row.Simple.simple_by_number
    may_postgres.Row.index_of_number may_postgres.Connect.port_for
reached = refl

connect-Checked_example :
    (host : Host) × (port : ℕ) × ((ports : List ℕ) × (ports_of config.host config.port ≡ some ports)
      × Paired host port config.host ports)
    × Checked network server auth ascii config host port client
connect-Checked_example = connect-Checked network server auth ascii config 0 reached

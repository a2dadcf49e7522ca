-- ===== src/Lib.antt =====
-- may_postgres, a PostgreSQL client on coroutines: a verification library.
--
-- A `Client` sends requests to a `Connection`, whose writing coroutine collects their bytes in a
-- vectored write buffer, and whose reading coroutine cuts the byte stream of the server into
-- batches of messages and routes them to the requests in the order in which those were written.
-- What a request waits for it reads from its own channel. The files model:
--
--   Base       native numbers, lists, text as code points, results, `str::parse` for integers
--   Protocol   postgres_protocol and std::io, as far as the client relies on them
--   Error      src/error/mod.rs and src/error/sqlstate.rs
--   VecBuf     src/vec_buf.rs: `new`, `write_bytes`, `advance`, `flush`
--   Codec      src/codec.rs: `PostgresCodec::decode`, `Framed::next_msg`
--   Connection src/connection.rs: the reading coroutine and its queue of responses (`Receiver`), the
--              writing coroutine (`Sender`) with `CopyInReceiver` of src/copy_in.rs
--   Client     src/client.rs, src/query.rs, src/simple_query.rs: the replies to a request, and what
--              queries and simple queries return
--   Row        src/row.rs: lookup of columns, values of a row
--   Transaction  src/transaction.rs, src/transaction_builder.rs: nested transactions, savepoints
--   Session    src/connect_raw.rs: the startup message, authentication and what the server reports
--   Connect    src/connect.rs: the loop over the hosts and their ports, `connect_once` (`Once`), and
--              src/connect_socket.rs (`Socket`)
--   Config     src/config.rs: `Config`, `param`, `Parser` for the key-value format (`KeyValue`),
--              `UrlParser` (`Url`) and `Config::from_str` (`Strings`)
--   Copy       src/copy_in.rs (the sink), src/copy_out.rs, src/binary_copy.rs (`Writer`, `Binary`)
--   Prepare    src/prepare.rs: `prepare`, `get_type`, the statements that ask for a type (`Types`), and
--              what the client remembers of types (src/client.rs)
--   Tests      concrete inputs, and the theorems at them
--
-- A function keeps the name that it has in the source. A loop of the source is a function of its
-- own, named after it; state that the source mutates is passed and returned. `Result` is Rust's;
-- where a call may panic, or its loop takes fuel, it returns a `Run`. Bytes and texts are lists of
-- numbers: the bytes, and the code points.
--
-- Parameters. The stream behind the write buffer (`VecBuf.Writer`) is as `std::io::Write` documents
-- it: `Ok(n)` takes the first n bytes offered, an error takes none, and `Ok(0)` may come at any time.
-- The parsers of postgres_protocol (`Protocol.Protocol`) have the laws
-- of `Protocol.IsProtocol`: a header is read from five bytes and counts itself, and a buffer that
-- holds a whole message gives an error or that message; what a failed parse leaves of the buffer is
-- the field `behind_error`. The reader of binary rows is told whether the build has overflow checks,
-- which turn the wrap-around of `len += 1` into a panic. A server with savepoints
-- (`Transaction.Savepoints.IsServer`) treats SAVEPOINT, RELEASE and ROLLBACK TO as PostgreSQL
-- documents them, when it accepts them. Percent decoding is an argument of `from_str`; only the
-- reading of an encoded URL asks that it undoes an encoding without delimiters
-- (`Config.Url.Coding.PercentCoding`). The encoders of
-- the startup messages, MD5 and SCRAM (`Session.Authentication`) are arguments of a session's start,
-- sockets and DNS (`Connect.Socket.Network`) and the server behind a socket (`Connect.Once.Server`)
-- of an attempt to connect, which is an argument of `connect` (`Connect.Opener`), and the conversion
-- of a value (`Row.FromSql`) of the reading of rows. `CopyData::new` is an argument of what sends data
-- to the server, and what `to_sql` does with a value (`Copy.Writer.Written`) of the writing of rows.
-- `Prepare.Backend` is the types of postgres-types, the conversions of the values that describe a type,
-- and the replies to the requests of `prepare`; only the end of `get_type` asks that the catalog is
-- acyclic (`Prepare.Catalog.Acyclic`).
--
-- Fuel. `flush` loops once for each write: the number of unsent bytes and two is enough, and one
-- more for each answer `Ok(0)` to unsent bytes, on which the source writes them again. The writing
-- coroutine gives each flush `idle` rounds for such answers; `idle` is any number.
-- `decode` passes a message in every round, so one more than the number of buffered bytes is enough.
-- `Parser::parse` takes a character in every round, so one more than the characters is enough,
-- as does the loop of `UrlParser::parse_params`,
-- and `collect` of the rows a reply, so one more than the replies. `get_type`
-- recurses from a type to those that it is made of, and its fuel is the depth of that: on a catalog whose
-- types are made of types of a smaller rank, one more than a bound of the ranks is enough.
--
-- Not modelled: the values of types (postgres-types), portals, cancellation, the trait of
-- src/generic_client.rs, the locks that only delay a read or a flush, logging, and the second
-- connection of src/connection_unix.rs, which is not compiled.
mod Base
pub mod Protocol
pub mod Error
pub mod VecBuf
pub mod Codec
pub mod Connection
pub mod Config
pub mod Client
pub mod Transaction
pub mod Connect
pub mod Row
pub mod Session
pub mod Copy
pub mod Prepare
mod Tests

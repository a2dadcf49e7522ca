-- ===== src/Connection.antt =====
-- src/connection.rs: the two coroutines of a connection. `Receiver` routes the server's batches to
-- the requests, `Sender` writes the requests.
pub mod Receiver
pub mod Sender

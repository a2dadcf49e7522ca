-- ===== src/Tests.antt =====
-- Concrete inputs: a stream that takes three bytes a write, a wire format, and the theorems applied
-- to them.
mod Wire
mod Buffers
mod Decoding
mod Errors
mod Routing
mod Sending
mod Columns
mod Connecting
mod Nested
mod Querying
mod Statements
mod Strings
mod Urls
mod Starting
mod Copying
mod Preparing

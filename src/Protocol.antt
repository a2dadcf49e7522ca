-- ===== src/Protocol.antt =====
-- The crates that the client is built on, as far as the client relies on them: the messages of
-- `postgres_protocol::message::backend` as their accessors show them, its two parsers as a
-- parameter, and the errors of `std::io`.
use may_postgres.Base.{
  ℕ, ◌+◌, ◌≤◌, ◌<◌, ◌≡◌, ◌≢◌, ◌++◌, Option, none, some, length, drop, Bytes, Text, Result, ok,
}

-- `io::ErrorKind`, the kinds that the client itself raises; `external` is any other.
pub data IoErrorKind : Type 0 where
  broken_pipe invalid_input invalid_data unexpected_eof permission_denied other : IoErrorKind
  external : ℕ → IoErrorKind

pub record IoError : Type 0 where
  pub kind : IoErrorKind
  pub text : Text

-- A `FallibleIterator`: items, then its end or an error.
pub data Items (A : Type 0) : Type 0 where
  finished : Items A
  item : A → Items A → Items A
  failed : IoError → Items A

pub record ByteRange : Type 0 where
  pub start : ℕ
  pub end : ℕ

-- `DataRowBody`: `buffer()`, and `ranges()` of the column values in it.
pub record DataRowBody : Type 0 where
  pub buffer : Bytes
  pub ranges : Items (Option ByteRange)

-- `ErrorField`: `type_()` and `value()`.
pub record ErrorField : Type 0 where
  pub type_ : ℕ
  pub value : Text

-- `backend::Message`: the variants that the client names, with what it reads of their bodies.
pub data Message : Type 0 where
  authentication_ok authentication_cleartext_password : Message
  authentication_md5_password : Bytes → Message
  authentication_sasl : Items Text → Message
  authentication_sasl_continue authentication_sasl_final : Bytes → Message
  authentication_kerberos_v5 authentication_scm_credential : Message
  authentication_gss authentication_sspi : Message
  backend_key_data : ℕ → ℕ → Message
  bind_complete copy_done copy_in_response copy_out_response : Message
  command_complete : Result IoError Text → Message
  copy_data : Bytes → Message
  data_row : DataRowBody → Message
  empty_query_response no_data parse_complete portal_suspended ready_for_query : Message
  error_response : Items ErrorField → Message
  notice_response notification_response : Message
  parameter_description : Items ℕ → Message
  parameter_status : Result IoError Text → Result IoError Text → Message
  row_description : Items (Text × ℕ) → Message
  other_message : ℕ → Message

-- `message::frontend`: the bytes of the messages that the client writes here.
pub record Frontend : Type 0 where
  pub write_copy_data : Bytes → Bytes
  pub copy_done : Bytes
  pub copy_fail : Text → Bytes
  pub sync : Bytes

-- `backend::Header`: the tag, and the length of the message without its tag.
pub record Header : Type 0 where
  pub tag : ℕ
  pub len : ℕ

abbrev pub notice_response_tag : ℕ
notice_response_tag = b'N'

abbrev pub notification_response_tag : ℕ
notification_response_tag = b'A'

abbrev pub parameter_status_tag : ℕ
parameter_status_tag = b'S'

abbrev pub ready_for_query_tag : ℕ
ready_for_query_tag = b'Z'

-- `Header::parse`, and `Message::parse`, which takes the message off the front of the buffer.
pub record Protocol : Type 0 where
  pub parse_header : Bytes → Result IoError (Option Header)
  pub parse_message : Bytes → Result IoError (Option (Message × Bytes))
  -- What `Message::parse` leaves in the buffer when it fails.
  pub behind_error : Bytes → Bytes

-- What the codec relies on: a header is read from five bytes and counts its own length field, and
-- a buffer that holds a whole message gives an error or that message.
pub record IsProtocol (p : Protocol) : Type 0 where
  pub header_short : (bs : Bytes) → length bs < 5 → p.parse_header bs ≡ ok none
  pub header_stable :
      (bs more : Bytes) → 5 ≤ length bs → p.parse_header (bs ++ more) ≡ p.parse_header bs
  pub header_len : (bs : Bytes) (h : Header) → p.parse_header bs ≡ ok (some h) → 4 ≤ h.len
  pub message_whole :
      (bs : Bytes) (h : Header)
      → p.parse_header bs ≡ ok (some h)
      → h.len + 1 ≤ length bs
      → p.parse_message bs ≢ ok none
  pub message_framed :
      (bs rest : Bytes) (h : Header) (m : Message)
      → p.parse_header bs ≡ ok (some h)
      → p.parse_message bs ≡ ok (some (m, rest))
      → rest ≡ drop (h.len + 1) bs

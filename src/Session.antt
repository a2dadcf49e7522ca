-- ===== src/Session.antt =====
-- src/connect_raw.rs: the start of a session, from the startup message to ReadyForQuery.
pub mod Talks
pub mod Handshake
pub mod Authenticates
pub mod Reports
pub mod Start
pub mod Batches
use may_postgres.Base.{
  ℕ, Bool, true, false, ◌||◌, List, [], ◌∷◌, ◌++◌, Option, none, some, if◌then◌else◌, Bytes, Text,
  codes, text_eq, as_bytes, Result, ok, err, map_err,
}
use may_postgres.Protocol.{
  IoError, Items, finished, item, failed, Message, authentication_ok,
  authentication_cleartext_password, authentication_md5_password, authentication_sasl,
  authentication_sasl_continue, authentication_sasl_final, authentication_kerberos_v5,
  authentication_scm_credential, authentication_gss, authentication_sspi, backend_key_data,
  error_response, notice_response, parameter_status, ready_for_query,
}
use may_postgres.Error.{
  Error, Cause, message, parse_error, encode_error, io_failure, config_error, authentication_error,
  db_failure, unexpected_message_error,
}
use may_postgres.Codec.{closed}
use may_postgres.Config.{Config}
use may_postgres.Connection.Receiver.{Receiver, initial}

-- `authentication` and `message::frontend` of postgres_protocol, as far as a session starts with
-- them. A `Scram` is a `ScramSha256` without channel binding, its nonce drawn.
pub record Authentication : Type 1 where
  pub startup_message : List (Text × Text) → Result IoError Bytes
  pub password_message : Bytes → Result IoError Bytes
  pub sasl_initial_response : Text → Bytes → Result IoError Bytes
  pub sasl_response : Bytes → Result IoError Bytes
  pub md5_hash : Bytes → Bytes → Bytes → Text
  pub Scram : Type 0
  pub scram_new : Bytes → Scram
  pub scram_message : Scram → Bytes
  pub scram_update : Bytes → Scram → Result Cause Scram
  pub scram_finish : Bytes → Scram → Result Cause Unit

-- `incoming` is what the calls of `StartupStream::next_msg` return, one after the other, until the
-- connection is closed; `writes` is how the next calls of `write_all` fail, if they do; `sent` is
-- what was written.
pub record Stream : Type 0 where
  pub incoming : List (Result IoError Message)
  pub writes : List (Option IoError)
  pub sent : List Bytes

-- Code that uses the stream and may return an error.
abbrev pub Act : Type 0 → Type 0
Act A = Stream → Result Error A × Stream

abbrev pub and_next :
    {A B : Type 0} → Result Error A × Stream → (A → Act B) → Result Error B × Stream
and_next (ok a, s) f = f a s
and_next (err e, s) f = (err e, s)

infixl 5 ◌>>=◌
abbrev pub ◌>>=◌ : {A B : Type 0} → Act A → (A → Act B) → Act B
◌>>=◌ m f s = and_next (m s) f

-- A result that leaves the stream alone.
abbrev pub lift : {A : Type 0} → Result Error A → Act A
lift r s = (r, s)

abbrev pub on_write : Bytes → Stream → List (Option IoError) → Result Error Unit × Stream
on_write bytes s [] = (ok tt, record s { sent = s.sent ++ bytes ∷ [] })
on_write bytes s (none ∷ writes) =
    (ok tt, record s { writes = writes; sent = s.sent ++ bytes ∷ [] })
on_write bytes s (some e ∷ writes) = (err (io_failure e), record s { writes = writes })

-- `stream.send(FrontendMessage::Raw(buf)).map_err(Error::io)`
abbrev pub send : Bytes → Act Unit
send bytes s = on_write bytes s s.writes

abbrev pub on_incoming : Stream → List (Result IoError Message) → Result Error Message × Stream
on_incoming s [] = (err (io_failure closed), s)
on_incoming s (r ∷ incoming) = (map_err io_failure r, record s { incoming = incoming })

-- `stream.next_msg().map_err(Error::io)?`
abbrev pub receive : Act Message
receive s = on_incoming s s.incoming

abbrev pub option_param : Text → Option Text → List (Text × Text)
option_param key none = []
option_param key (some v) = (key, v) ∷ []

abbrev pub startup_params : Config → List (Text × Text)
startup_params config =
    (codes "client_encoding", codes "UTF8")
    ∷ (codes "timezone", codes "GMT")
    ∷ (option_param (codes "user") config.user
        ++ (option_param (codes "database") config.dbname
            ++ (option_param (codes "options") config.options
                ++ option_param (codes "application_name") config.application_name)))

abbrev pub or_missing : {A : Type 0} → Text → Option A → Result Error A
or_missing what (some a) = ok a
or_missing what none = err (config_error (message what))

abbrev pub password_of : Config → Result Error Bytes
password_of config = or_missing (codes "password missing") config.password

abbrev pub user_of : Config → Result Error Text
user_of config = or_missing (codes "user missing") config.user

abbrev pub scram_sha_256 : Text
scram_sha_256 = codes "SCRAM-SHA-256"

abbrev pub scram_sha_256_plus : Text
scram_sha_256_plus = codes "SCRAM-SHA-256-PLUS"

-- The loop over the mechanisms: `has_scram || has_scram_plus` is all that is asked of it.
unfoldable pub scan_mechanisms : Items Text → Bool → Bool → Result Error (Bool × Bool)
scan_mechanisms finished has_scram has_scram_plus = ok (has_scram, has_scram_plus)
scan_mechanisms (failed e) has_scram has_scram_plus = err (parse_error e)
scan_mechanisms (item mechanism more) has_scram has_scram_plus =
    let scram = scan_mechanisms more true has_scram_plus in
    let plus = scan_mechanisms more has_scram true in
    let other = scan_mechanisms more has_scram has_scram_plus in
    if text_eq mechanism scram_sha_256
    then scram
    else if text_eq mechanism scram_sha_256_plus
    then plus
    else other

abbrev pub supported : Bool × Bool → Result Error Text
supported (has_scram, has_scram_plus) =
    if has_scram_plus || has_scram
    then ok scram_sha_256
    else err (authentication_error (message (codes "unsupported SASL mechanism")))

abbrev pub sasl_continued : Message → Result Error Bytes
sasl_continued (authentication_sasl_continue data_) = ok data_
sasl_continued (error_response body) = err (db_failure body)
sasl_continued _ = err unexpected_message_error

abbrev pub sasl_finished : Message → Result Error Bytes
sasl_finished (authentication_sasl_final data_) = ok data_
sasl_finished (error_response body) = err (db_failure body)
sasl_finished _ = err unexpected_message_error

-- The last `match` of `authenticate`.
abbrev pub accepted : Message → Result Error Unit
accepted authentication_ok = ok tt
accepted (error_response body) = err (db_failure body)
accepted _ = err unexpected_message_error

abbrev pub unsupported_method : Error
unsupported_method = authentication_error (message (codes "unsupported authentication method"))

-- What `read_info` collects: the newest parameters first.
pub record Info : Type 0 where
  pub process_id : ℕ
  pub secret_key : ℕ
  pub parameters : List (Text × Text)

abbrev pub no_info : Info
no_info = record { process_id = 0; secret_key = 0; parameters = [] }

abbrev pub set_parameter : Result IoError Text → Result IoError Text → Info → Result Error Info
set_parameter (err e) value info = err (parse_error e)
set_parameter (ok name) (err e) info = err (parse_error e)
set_parameter (ok name) (ok value) info =
    ok (record info { parameters = (name, value) ∷ info.parameters })

abbrev pub on_parameter :
    Result Error Info
    → List (Result IoError Message)
    → (Info → Result Error Info × List (Result IoError Message))
    → Result Error Info × List (Result IoError Message)
on_parameter (ok info) incoming continue = continue info
on_parameter (err e) incoming continue = (err e, incoming)

-- The loop of `read_info`.
unfoldable pub read_info_from :
    List (Result IoError Message) → Info → Result Error Info × List (Result IoError Message)
read_info_from [] info = (err (io_failure closed), [])
read_info_from (err e ∷ incoming) info = (err (io_failure e), incoming)
read_info_from (ok (backend_key_data process_id secret_key) ∷ incoming) info =
    read_info_from incoming (record info { process_id = process_id; secret_key = secret_key })
read_info_from (ok (parameter_status name value) ∷ incoming) info =
    on_parameter (set_parameter name value info) incoming (read_info_from incoming)
read_info_from (ok notice_response ∷ incoming) info = read_info_from incoming info
read_info_from (ok ready_for_query ∷ incoming) info = (ok info, incoming)
read_info_from (ok (error_response body) ∷ incoming) info = (err (db_failure body), incoming)
read_info_from (ok _ ∷ incoming) info = (err unexpected_message_error, incoming)

abbrev pub read_info : Act Info
read_info s =
    let (r, incoming) = read_info_from s.incoming no_info in (r, record s { incoming = incoming })

-- `Client::new` with the connection.
pub record Client : Type 0 where
  pub connection : Receiver
  pub process_id : ℕ
  pub secret_key : ℕ

abbrev pub client_of : Info → Client
client_of info = record {
  connection = initial info.parameters;
  process_id = info.process_id;
  secret_key = info.secret_key;
}

module _ (auth : Authentication) where
  open auth use {
    startup_message, password_message, sasl_initial_response, sasl_response, md5_hash, scram_new,
    scram_message, scram_update, scram_finish,
  }

  abbrev pub startup : Config → Act Unit
  startup config = lift (map_err encode_error (startup_message (startup_params config))) >>= send

  abbrev pub authenticate_password : Bytes → Act Unit
  authenticate_password password = lift (map_err encode_error (password_message password)) >>= send

  abbrev pub authenticate_sasl : Items Text → Bytes → Act Unit
  authenticate_sasl mechanisms password = do
    flags ← lift (scan_mechanisms mechanisms false false)
    mechanism ← lift (supported flags)
    first ← lift (
        map_err encode_error (sasl_initial_response mechanism (scram_message (scram_new password))))
    _ ← send first
    m ← receive
    data_ ← lift (sasl_continued m)
    scram ← lift (map_err authentication_error (scram_update data_ (scram_new password)))
    second ← lift (map_err encode_error (sasl_response (scram_message scram)))
    _ ← send second
    m2 ← receive
    data2 ← lift (sasl_finished m2)
    lift (map_err authentication_error (scram_finish data2 scram))

  abbrev pub await_ok : Act Unit
  await_ok = receive >>= λ m. lift (accepted m)

  -- The first `match` of `authenticate`, with what follows it.
  unfoldable pub on_method : Config → Message → Act Unit
  unfolding scan_mechanisms
  on_method config authentication_ok = lift (ok tt)
  on_method config authentication_cleartext_password = do
    password ← lift (password_of config)
    _ ← authenticate_password password
    await_ok
  on_method config (authentication_md5_password salt) = do
    user ← lift (user_of config)
    password ← lift (password_of config)
    _ ← authenticate_password (as_bytes (md5_hash (as_bytes user) password salt))
    await_ok
  on_method config (authentication_sasl mechanisms) = do
    password ← lift (password_of config)
    _ ← authenticate_sasl mechanisms password
    await_ok
  on_method config authentication_kerberos_v5 = lift (err unsupported_method)
  on_method config authentication_scm_credential = lift (err unsupported_method)
  on_method config authentication_gss = lift (err unsupported_method)
  on_method config authentication_sspi = lift (err unsupported_method)
  on_method config (error_response body) = lift (err (db_failure body))
  on_method config _ = lift (err unexpected_message_error)

  abbrev pub authenticate : Config → Act Unit
  authenticate config = receive >>= on_method config

  unfoldable pub connect_raw : Config → Act Client
  unfolding on_method read_info_from
  connect_raw config = do
    _ ← startup config
    _ ← authenticate config
    info ← read_info
    lift (ok (client_of info))

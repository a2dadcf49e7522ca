-- ===== src/Session/Start.antt =====
-- `connect_raw` of src/connect_raw.rs returns a client behind a session's start, and only then.
use may_postgres.Base.{
  List, [], ◌∷◌, ◌++◌, append_assoc, append-nil, ◌≡◌, refl, sym, ap, ◌∙◌, arith, Bytes, Result, ok,
  map_err,
}
use may_postgres.Protocol.{IoError, Message}
use may_postgres.Error.{encode_error}
use may_postgres.Config.{Config}
use may_postgres.Session.{
  Authentication, Stream, send, startup_params, authenticate, read_info_from, read_info, Client,
  client_of, no_info, connect_raw, on_method, Info,
}
use may_postgres.Session.Talks.{
  received, Talks, Talks-trans, Talks-listens, Talks-rests, and_next-eq-ok, map_err-eq-ok,
  lift-Talks, send-Talks,
}
use may_postgres.Session.Handshake.{Handshake, trusted, cleartext, md5, scram, Offers-supported}
use may_postgres.Session.Authenticates.{authenticate-Shakes}
use may_postgres.Session.Reports.{
  Report, ready, Summary, report_all, report_all-Summary, read_info_from-ready,
  read_info_from-Reads,
}

-- A whole start: the startup message, a handshake, reports up to ReadyForQuery.
pub record Starts (auth : Authentication) (config : Config) (s : Stream) (client : Client)
    (t : Stream) : Type 0 where
  pub startup_bytes : Bytes
  pub handshake : List Message
  pub answers : List Bytes
  pub reports : List Report
  pub info : Info
  pub startup_is : auth.startup_message (startup_params config) ≡ ok startup_bytes
  pub handshake_is : Handshake auth config handshake answers
  pub summary : Summary reports info
  pub client_is : client ≡ client_of info
  pub talks : Talks s (handshake ++ ready reports) (startup_bytes ∷ answers) t

read_info-Talks :
    (s : Stream) {info : Info} {t : Stream}
    → read_info s ≡ (ok info, t)
    → (reports : List Report) × (info ≡ report_all no_info reports) × Talks s (ready reports) [] t
read_info-Talks s {info} {t} h =
    let left : read_info_from s.incoming no_info ≡ (ok info, t.incoming) =
      ap (λ p. (p.0, p.1.incoming)) h in
    let (reports, read, same) = read_info_from-Reads s.incoming no_info left in
    (
      reports,
      same,
      record { incoming = read; sent = ap (λ p. p.1.sent) (sym h) ∙ sym (append-nil s.sent) },
    )

module _ (auth : Authentication) where
  -- If `connect_raw` returns a client, then the startup message was written first, the server has
  -- accepted the client by a handshake, and has reported its keys and parameters up to the first
  -- ReadyForQuery: nothing else was written and nothing more was read. The client holds the last
  -- key and of each parameter the last value.
  pub connect_raw-Starts :
      (config : Config) (s : Stream) {client : Client} {t : Stream}
      → connect_raw auth config s ≡ (ok client, t)
      → Starts auth config s client t
  unfolding connect_raw
  connect_raw-Starts config s {client} {t} h =
      let (_, s1, e1, h1) = and_next-eq-ok _ _ h in
      let (bytes, s0, e0, k0) = and_next-eq-ok _ send e1 in
      let (encoded, t0) =
        lift-Talks (map_err encode_error (auth.startup_message (startup_params config))) s e0 in
      let (_, s2, e2, h2) = and_next-eq-ok _ _ h1 in
      let (ms, out, shake, t2) = authenticate-Shakes auth config s1 e2 in
      let (info, s3, e3, h3) = and_next-eq-ok _ _ h2 in
      let (reports, same, t3) = read_info-Talks s2 e3 in
      let (client_same, t4) = lift-Talks (ok (client_of info)) s3 h3 in
      record {
        startup_bytes = bytes;
        handshake = ms;
        answers = out;
        reports = reports;
        info = report_all no_info reports;
        startup_is =
            map_err-eq-ok encode_error (auth.startup_message (startup_params config)) encoded;
        handshake_is = shake;
        summary = report_all-Summary reports;
        client_is = ground (arith, sym client_same) ∙ ap client_of same;
        talks =
            Talks-trans t0
              (Talks-trans (send-Talks bytes s0 k0) (Talks-listens t2 (Talks-rests t3 t4)));
      }

abbrev pub stream : List (Result IoError Message) → List Bytes → Stream
stream incoming sent = record { incoming = incoming; writes = []; sent = sent }

module _ (auth : Authentication) where
  authenticate-Handshake :
      (config : Config) {ms : List Message} {out : List Bytes}
      (rest : List (Result IoError Message)) (sent : List Bytes)
      → Handshake auth config ms out
      → authenticate auth config (stream (received ms ++ rest) sent)
        ≡ (ok tt, stream rest (sent ++ out))
  unfolding on_method
  authenticate-Handshake config rest sent trusted =
      ap (λ l. (ok tt, stream rest l)) (sym (append-nil sent))
  authenticate-Handshake config rest sent (cleartext password bytes has enc) = rw (has, enc) refl
  authenticate-Handshake config rest sent (md5 user password salt bytes named has enc) =
      rw (named, has, enc) refl
  authenticate-Handshake config rest sent
        (scram mechanisms password first data1 state second data2 offered has initial updated
          response finish) =
      let (flags, scanned, support) = Offers-supported mechanisms offered in
      rw (has, scanned, support, initial, updated, response, finish)
        (ap (λ l. (ok tt, stream rest l)) (append_assoc sent (first ∷ []) (second ∷ [])))

  -- Every start of a session succeeds, if no write fails: the client is returned, everything up to
  -- ReadyForQuery was read and the answers of the handshake were written, and nothing else.
  pub connect_raw-Handshake :
      (config : Config) (bytes : Bytes) (ms : List Message) (out : List Bytes)
      (reports : List Report) (rest : List (Result IoError Message)) (sent : List Bytes)
      → auth.startup_message (startup_params config) ≡ ok bytes
      → Handshake auth config ms out
      → connect_raw auth config (stream (received ms ++ (received (ready reports) ++ rest)) sent)
        ≡ (ok (client_of (report_all no_info reports)), stream rest (sent ++ bytes ∷ out))
  unfolding connect_raw
  connect_raw-Handshake config bytes ms out reports rest sent encoded shake =
      rw
        (
          encoded,
          authenticate-Handshake config (received (ready reports) ++ rest) (sent ++ bytes ∷ [])
              shake,
          read_info_from-ready reports rest no_info,
        )
        (ap (λ l. (ok (client_of (report_all no_info reports)), stream rest l))
          (append_assoc sent (bytes ∷ []) out))

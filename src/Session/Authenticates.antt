-- ===== src/Session/Authenticates.antt =====
-- `authenticate` of src/connect_raw.rs succeeds by a handshake only.
use mathlib.Core.Path.{subst}
use may_postgres.Base.{
  false, List, [], ◌∷◌, ◌≡◌, refl, sym, ap, ◌∙◌, Option, none, some, arith, Bytes, Text, as_bytes,
  ok, map_err,
}
use may_postgres.Protocol.{
  Items, Message, authentication_ok, authentication_cleartext_password, authentication_md5_password,
  authentication_sasl, authentication_sasl_continue, authentication_sasl_final,
  authentication_kerberos_v5, authentication_scm_credential, authentication_gss,
  authentication_sspi, error_response,
}
use may_postgres.Error.{encode_error, authentication_error}
use may_postgres.Config.{Config}
use may_postgres.Session.{
  Authentication, Stream, lift, send, receive, or_missing, password_of, user_of, scram_sha_256,
  scan_mechanisms, supported, sasl_continued, sasl_finished, accepted, authenticate_password,
  authenticate_sasl, await_ok, on_method, authenticate,
}
use may_postgres.Session.Talks.{
  Talks, Talks-trans, and_next-eq-ok, map_err-eq-ok, lift-Talks, send-Talks, receive-Talks,
}
use may_postgres.Session.Handshake.{
  Offers, Handshake, trusted, cleartext, md5, scram, scan_mechanisms-Offers,
}

or_missing-eq-ok :
    {A : Type 0} (what : Text) (o : Option A) {a : A} → or_missing what o ≡ ok a → o ≡ some a
or_missing-eq-ok what none h = absurd (ground (arith, h))
or_missing-eq-ok what (some a) h = ground (arith, h)

accepted-eq-ok : (m : Message) → accepted m ≡ ok tt → m ≡ authentication_ok
accepted-eq-ok authentication_ok h = refl
accepted-eq-ok _ h = absurd (ground (arith, h))

sasl_continued-eq-ok :
    (m : Message) {d : Bytes} → sasl_continued m ≡ ok d → m ≡ authentication_sasl_continue d
sasl_continued-eq-ok (authentication_sasl_continue d) h = ground (arith, h)
sasl_continued-eq-ok _ h = absurd (ground (arith, h))

sasl_finished-eq-ok :
    (m : Message) {d : Bytes} → sasl_finished m ≡ ok d → m ≡ authentication_sasl_final d
sasl_finished-eq-ok (authentication_sasl_final d) h = ground (arith, h)
sasl_finished-eq-ok _ h = absurd (ground (arith, h))

module _ (auth : Authentication) where
  open auth use {
    password_message, sasl_initial_response, sasl_response, scram_new, scram_message, scram_update,
    scram_finish,
  }

  authenticate_password-Talks :
      (password : Bytes) (s : Stream) {t : Stream}
      → authenticate_password auth password s ≡ (ok tt, t)
      → (bytes : Bytes) × (password_message password ≡ ok bytes) × Talks s [] (bytes ∷ []) t
  authenticate_password-Talks password s h =
      let (bytes, s1, e, k) = and_next-eq-ok _ send h in
      let (encoded, a) = lift-Talks (map_err encode_error (password_message password)) s e in
      (
        bytes,
        map_err-eq-ok encode_error (password_message password) encoded,
        Talks-trans a (send-Talks bytes s1 k),
      )

  await_ok-Talks :
      (s : Stream) {t : Stream}
      → await_ok auth s ≡ (ok tt, t)
      → Talks s (authentication_ok ∷ []) [] t
  await_ok-Talks s {t} h =
      let (m, s1, e, k) = and_next-eq-ok (receive s) (λ m. lift (accepted m)) h in
      let (accept, a) = lift-Talks (accepted m) s1 k in
      subst (λ n. Talks s (n ∷ []) [] t) (accepted-eq-ok m accept)
        (Talks-trans (receive-Talks s e) a)

  -- A SASL exchange that succeeds.
  record Exchange (mechanisms : Items Text) (password : Bytes) (s t : Stream) : Type 0 where
    first : Bytes
    data1 : Bytes
    state : auth.Scram
    second : Bytes
    data2 : Bytes
    offered : Offers mechanisms
    initial : sasl_initial_response scram_sha_256 (scram_message (scram_new password)) ≡ ok first
    updated : scram_update data1 (scram_new password) ≡ ok state
    response : sasl_response (scram_message state) ≡ ok second
    finish : scram_finish data2 state ≡ ok tt
    talks :
        Talks s
          (authentication_sasl_continue data1 ∷ authentication_sasl_final data2 ∷ [])
          (first ∷ second ∷ [])
          t

  authenticate_sasl-Exchange :
      (mechanisms : Items Text) (password : Bytes) (s : Stream) {t : Stream}
      → authenticate_sasl auth mechanisms password s ≡ (ok tt, t)
      → Exchange mechanisms password s t
  authenticate_sasl-Exchange mechanisms password s {t} h =
      let (flags, s1, e1, h1) = and_next-eq-ok _ _ h in
      let (scanned, t1) = lift-Talks (scan_mechanisms mechanisms false false) s e1 in
      let (mechanism, s2, e2, h2) = and_next-eq-ok _ _ h1 in
      let (support, t2) = lift-Talks (supported flags) s1 e2 in
      let (same, offer) = scan_mechanisms-Offers mechanisms scanned support in
      let (first, s3, e3, h3) = and_next-eq-ok _ _ h2 in
      let (enc1, t3) =
        lift-Talks
          (map_err encode_error
            (sasl_initial_response mechanism (scram_message (scram_new password))))
          s2 e3 in
      let (_, s4, e4, h4) = and_next-eq-ok _ _ h3 in
      let t4 = send-Talks first s3 e4 in
      let (m1, s5, e5, h5) = and_next-eq-ok _ _ h4 in
      let t5 = receive-Talks s4 e5 in
      let (data1, s6, e6, h6) = and_next-eq-ok _ _ h5 in
      let (cont, t6) = lift-Talks (sasl_continued m1) s5 e6 in
      let (scram_state, s7, e7, h7) = and_next-eq-ok _ _ h6 in
      let (update, t7) =
        lift-Talks (map_err authentication_error (scram_update data1 (scram_new password))) s6 e7 in
      let (second, s8, e8, h8) = and_next-eq-ok _ _ h7 in
      let (enc2, t8) =
        lift-Talks (map_err encode_error (sasl_response (scram_message scram_state))) s7 e8 in
      let (_, s9, e9, h9) = and_next-eq-ok _ _ h8 in
      let t9 = send-Talks second s8 e9 in
      let (m2, s10, e10, h10) = and_next-eq-ok _ _ h9 in
      let t10 = receive-Talks s9 e10 in
      let (data2, s11, e11, h11) = and_next-eq-ok _ _ h10 in
      let (final, t11) = lift-Talks (sasl_finished m2) s10 e11 in
      let (done, t12) =
        lift-Talks (map_err authentication_error (scram_finish data2 scram_state)) s11 h11 in
      record {
        first = first;
        data1 = data1;
        state = scram_state;
        second = second;
        data2 = data2;
        offered = offer;
        initial =
            ap (λ n. sasl_initial_response n (scram_message (scram_new password))) (sym same)
            ∙ map_err-eq-ok encode_error
                (sasl_initial_response mechanism (scram_message (scram_new password))) enc1;
        updated =
            map_err-eq-ok authentication_error (scram_update data1 (scram_new password)) update;
        response = map_err-eq-ok encode_error (sasl_response (scram_message scram_state)) enc2;
        finish = map_err-eq-ok authentication_error (scram_finish data2 scram_state) done;
        talks =
            subst (λ n. Talks s (n ∷ authentication_sasl_final data2 ∷ []) (first ∷ second ∷ []) t)
              (sasl_continued-eq-ok m1 cont)
              (subst (λ n. Talks s (m1 ∷ n ∷ []) (first ∷ second ∷ []) t)
                (sasl_finished-eq-ok m2 final)
                (Talks-trans t1 (
                  Talks-trans t2 (
                    Talks-trans t3 (
                      Talks-trans t4 (
                        Talks-trans t5 (
                          Talks-trans t6 (
                            Talks-trans t7 (
                              Talks-trans t8
                                (Talks-trans t9 (Talks-trans t10 (Talks-trans t11 t12))))))))))));
      }

  -- A handshake took place between the two streams.
  abbrev pub Shakes : Config → Stream → Stream → Type 0
  Shakes config s t =
      (ms : List Message) × (out : List Bytes) × Handshake auth config ms out × Talks s ms out t

  -- The method was received; the stream is as it stands behind it.
  abbrev Continues : Config → Message → Stream → Stream → Type 0
  Continues config m s t =
      (ms : List Message) × (out : List Bytes) × Handshake auth config (m ∷ ms) out
      × Talks s ms out t

  on_method-Continues :
      (config : Config) (m : Message) (s : Stream) {t : Stream}
      → on_method auth config m s ≡ (ok tt, t)
      → Continues config m s t
  unfolding on_method
  on_method-Continues config authentication_ok s h = ([], [], trusted, (lift-Talks (ok tt) s h).1)
  on_method-Continues config authentication_cleartext_password s h =
      let (password, s1, e1, h1) = and_next-eq-ok _ _ h in
      let (has, t1) = lift-Talks (password_of config) s e1 in
      let (_, s2, e2, h2) = and_next-eq-ok _ _ h1 in
      let (bytes, encoded, t2) = authenticate_password-Talks password s1 e2 in
      (
        _,
        _,
        cleartext password bytes (or_missing-eq-ok _ config.password has) encoded,
        Talks-trans t1 (Talks-trans t2 (await_ok-Talks s2 h2)),
      )
  on_method-Continues config (authentication_md5_password salt) s h =
      let (user, s0, e0, h0) = and_next-eq-ok _ _ h in
      let (named, t0) = lift-Talks (user_of config) s e0 in
      let (password, s1, e1, h1) = and_next-eq-ok _ _ h0 in
      let (has, t1) = lift-Talks (password_of config) s0 e1 in
      let (_, s2, e2, h2) = and_next-eq-ok _ _ h1 in
      let (bytes, encoded, t2) =
        authenticate_password-Talks (as_bytes (auth.md5_hash (as_bytes user) password salt)) s1
          e2 in
      (
        _,
        _,
        md5 user password salt bytes (or_missing-eq-ok _ config.user named)
            (or_missing-eq-ok _ config.password has) encoded,
        Talks-trans t0 (Talks-trans t1 (Talks-trans t2 (await_ok-Talks s2 h2))),
      )
  on_method-Continues config (authentication_sasl mechanisms) s h =
      let (password, s1, e1, h1) = and_next-eq-ok _ _ h in
      let (has, t1) = lift-Talks (password_of config) s e1 in
      let (_, s2, e2, h2) = and_next-eq-ok _ _ h1 in
      let x = authenticate_sasl-Exchange mechanisms password s1 e2 in
      (
        _,
        _,
        scram mechanisms password x.first x.data1 x.state x.second x.data2 x.offered
            (or_missing-eq-ok _ config.password has) x.initial x.updated x.response x.finish,
        Talks-trans t1 (Talks-trans x.talks (await_ok-Talks s2 h2)),
      )
  on_method-Continues config authentication_kerberos_v5 s h =
      absurd (ground (arith, ap (λ p. p.0) h))
  on_method-Continues config authentication_scm_credential s h =
      absurd (ground (arith, ap (λ p. p.0) h))
  on_method-Continues config authentication_gss s h = absurd (ground (arith, ap (λ p. p.0) h))
  on_method-Continues config authentication_sspi s h = absurd (ground (arith, ap (λ p. p.0) h))
  on_method-Continues config (error_response body) s h = absurd (ground (arith, ap (λ p. p.0) h))
  on_method-Continues config _ s h = absurd (ground (arith, ap (λ p. p.0) h))

  pub authenticate-Shakes :
      (config : Config) (s : Stream) {t : Stream}
      → authenticate auth config s ≡ (ok tt, t)
      → Shakes config s t
  authenticate-Shakes config s h =
      let (m, s1, e, k) = and_next-eq-ok _ _ h in
      let (ms, out, shake, talk) = on_method-Continues config m s1 k in
      (m ∷ ms, out, shake, Talks-trans (receive-Talks s e) talk)

-- ===== src/Session/Talks.antt =====
-- What the steps of src/connect_raw.rs read from the stream and write to it when they succeed.
use may_postgres.Base.{
  List, [], ◌∷◌, ◌++◌, append_assoc, append-nil, ◌≡◌, refl, sym, ap, ◌∙◌, Option, none, some, arith,
  Bytes, Result, ok, err, map_err,
}
use may_postgres.Protocol.{IoError, Message}
use may_postgres.Error.{Error, io_failure}
use may_postgres.Session.{on_write, on_incoming, Stream, Act, and_next, lift, send, receive}

abbrev pub received : List Message → List (Result IoError Message)
received [] = []
received (m ∷ ms) = ok m ∷ received ms

-- From `s` to `t` these messages were received and these bytes were sent.
pub record Talks (s : Stream) (ms : List Message) (out : List Bytes) (t : Stream) : Type 0 where
  pub incoming : s.incoming ≡ received ms ++ t.incoming
  pub sent : t.sent ≡ s.sent ++ out

received-append : (ms ns : List Message) → received (ms ++ ns) ≡ received ms ++ received ns
received-append [] ns = refl
received-append (m ∷ ms) ns = ap (◌∷◌ (ok m)) (received-append ms ns)

pub Talks-refl : (s : Stream) → Talks s [] [] s
Talks-refl s = record { incoming = refl; sent = sym (append-nil s.sent) }

pub Talks-trans :
    {s t u : Stream} {ms ns : List Message} {out more : List Bytes}
    → Talks s ms out t
    → Talks t ns more u
    → Talks s (ms ++ ns) (out ++ more) u
Talks-trans {s} {t} {u} {ms} {ns} {out} {more} a b = record {
  incoming =
      a.incoming
      ∙ ap (λ l. received ms ++ l) b.incoming
      ∙ sym (append_assoc (received ms) (received ns) u.incoming)
      ∙ ap (λ l. l ++ u.incoming) (sym (received-append ms ns));
  sent = b.sent ∙ ap (λ l. l ++ more) a.sent ∙ append_assoc s.sent out more;
}

-- Nothing more is written.
pub Talks-listens :
    {s t u : Stream} {ms ns : List Message} {out : List Bytes}
    → Talks s ms out t
    → Talks t ns [] u
    → Talks s (ms ++ ns) out u
Talks-listens {s} {t} {u} {ms} {ns} {out} a b = record {
  incoming = (Talks-trans a b).incoming;
  sent = (Talks-trans a b).sent ∙ ap (λ l. s.sent ++ l) (append-nil out);
}

-- Nothing happens any more.
pub Talks-rests :
    {s t u : Stream} {ms : List Message} {out : List Bytes}
    → Talks s ms out t
    → Talks t [] [] u
    → Talks s ms out u
Talks-rests {s} {t} {u} {ms} {out} a b = record {
  incoming = a.incoming ∙ ap (λ l. received ms ++ l) b.incoming;
  sent = (Talks-listens a b).sent;
}

pub and_next-eq-ok :
    {A B : Type 0} (r : Result Error A × Stream) (f : A → Act B) {b : B} {t : Stream}
    → and_next r f ≡ (ok b, t)
    → (a : A) × (s : Stream) × (r ≡ (ok a, s)) × (f a s ≡ (ok b, t))
and_next-eq-ok (ok a, s) f h = (a, s, refl, h)
and_next-eq-ok (err e, s) f h = absurd (ground (arith, ap (λ p. p.0) h))

pub map_err-eq-ok :
    {E F A : Type 0} (f : E → F) (r : Result E A) {a : A} → map_err f r ≡ ok a → r ≡ ok a
map_err-eq-ok f (ok a) h = ground (arith, h)
map_err-eq-ok f (err e) h = absurd (ground (arith, h))

pub lift-Talks :
    {A : Type 0} (r : Result Error A) {a : A} (s : Stream) {t : Stream}
    → lift r s ≡ (ok a, t)
    → (r ≡ ok a) × Talks s [] [] t
lift-Talks r s h = (
  ap (λ p. p.0) h,
  record {
    incoming = ap (λ p. p.1.incoming) h;
    sent = ap (λ p. p.1.sent) (sym h) ∙ sym (append-nil s.sent);
  },
)

on_write-Talks :
    (bytes : Bytes) (s : Stream) (writes : List (Option IoError)) {u : Unit} {t : Stream}
    → on_write bytes s writes ≡ (ok u, t)
    → Talks s [] (bytes ∷ []) t
on_write-Talks bytes s [] h = record {
  incoming = ap (λ p. p.1.incoming) h;
  sent = ap (λ p. p.1.sent) (sym h);
}
on_write-Talks bytes s (none ∷ writes) h = record {
  incoming = ap (λ p. p.1.incoming) h;
  sent = ap (λ p. p.1.sent) (sym h);
}
on_write-Talks bytes s (some e ∷ writes) h = absurd (ground (arith, ap (λ p. p.0) h))

pub send-Talks :
    (bytes : Bytes) (s : Stream) {u : Unit} {t : Stream}
    → send bytes s ≡ (ok u, t)
    → Talks s [] (bytes ∷ []) t
send-Talks bytes s h = on_write-Talks bytes s s.writes h

on_incoming-Talks :
    (s : Stream) (incoming : List (Result IoError Message)) {m : Message} {t : Stream}
    → s.incoming ≡ incoming
    → on_incoming s incoming ≡ (ok m, t)
    → Talks s (m ∷ []) [] t
on_incoming-Talks s [] same h = absurd (ground (arith, ap (λ p. p.0) h))
on_incoming-Talks s (r ∷ incoming) {m} same h = record {
  incoming =
      same
      ∙ ap (λ q. q ∷ incoming) (map_err-eq-ok io_failure r (ap (λ p. p.0) h))
      ∙ ap (λ l. ok m ∷ l) (ap (λ p. p.1.incoming) h);
  sent = ap (λ p. p.1.sent) (sym h) ∙ sym (append-nil s.sent);
}

pub receive-Talks :
    (s : Stream) {m : Message} {t : Stream} → receive s ≡ (ok m, t) → Talks s (m ∷ []) [] t
receive-Talks s h = on_incoming-Talks s s.incoming refl h

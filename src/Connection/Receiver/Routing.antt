-- ===== src/Connection/Receiver/Routing.antt =====
-- Which request gets which batch: the requests in the order in which they were written, whatever
-- the interleaving of the two coroutines and whatever the cache holds back.
use may_postgres.Base.{
  ◌<◌, List, [], ◌∷◌, ◌++◌, ◌≡◌, refl, sym, ap, ◌∙◌, arith, append-nil, append_assoc, length, Text,
}
use mathlib.Core.Path.{subst}
use may_postgres.Protocol.{Protocol}
use may_postgres.Codec.{normal, async}
use may_postgres.Connection.Receiver.{
  Receiver, max_cache_size, initial, Event, pushed, arrives, fails, Status, running, closed,
  panicked, on_event, resume, run,
}
use may_postgres.Connection.Receiver.Batches.{
  requests, batches, routed, routed-nil, held_back, delivered, IsValid,
}
use may_postgres.Connection.Receiver.Steps.{Steps, same-Steps, on_event-Steps}

of_resume :
    (status : Status) (continue : Receiver → Status) (t : Receiver)
    → resume status continue ≡ running t
    → (s : Receiver) × (status ≡ running s) × (continue s ≡ running t)
unfolding resume
of_resume (running s) continue t e = (s, refl, e)
of_resume (closed x r) continue t e = absurd (ground arith)
of_resume panicked continue t e = absurd (ground arith)

requests-cons :
    (event : Event) (events : List Event)
    → requests (event ∷ events) ≡ requests (event ∷ []) ++ requests events
requests-cons (pushed channel) events = refl
requests-cons (arrives m) events = refl
requests-cons (fails x) events = refl

batches-cons :
    (event : Event) (events : List Event)
    → batches (event ∷ events) ≡ batches (event ∷ []) ++ batches events
batches-cons (pushed channel) events = refl
batches-cons (arrives (normal b c)) events = refl
batches-cons (arrives (async m)) events = refl
batches-cons (fails x) events = refl

then-Steps :
    (event : Event) (events : List Event) (r s t : Receiver)
    → Steps r s (requests (event ∷ [])) (batches (event ∷ []))
    → Steps s t (requests events) (batches events)
    → Steps r t (requests (event ∷ events)) (batches (event ∷ events))
then-Steps event events r s t a b = record {
  valid = b.valid;
  routes = λ later more.
      b.routes later more
      ∙ a.routes (requests events ++ later) (batches events ++ more)
      ∙ rw (requests-cons event events, batches-cons event events) (simp append_assoc);
}

module _ (p : Protocol) where
  -- A run that goes on has made its first step.
  pub resumed :
      (event : Event) (events : List Event) (r t : Receiver)
      → run p r (event ∷ events) ≡ running t
      → (s : Receiver) × (on_event p event r ≡ running s) × (run p s events ≡ running t)
  unfolding run
  resumed event events r t e = of_resume (on_event p event r) (λ s. run p s events) t e

  run-Steps :
      (events : List Event) (r t : Receiver)
      → IsValid r
      → run p r events ≡ running t
      → Steps r t (requests events) (batches events)
  run-Steps [] r t v e =
      let same : r ≡ t = unfold run in ground arith in
      subst (λ x. Steps r x [] []) same (same-Steps r r v refl refl refl)
  run-Steps (event ∷ events) r t v e =
      let (s, one, others) = resumed event events r t e in
      let a : Steps r s (requests (event ∷ [])) (batches (event ∷ [])) =
        on_event-Steps p event r s v one in
      then-Steps event events r s t a (run-Steps events s t a.valid others)

  -- As long as the reading coroutine runs, the batches that it has sent, followed by those that it
  -- holds back for the first waiting request, are the batches received, each with the channel of the
  -- request that it belongs to: requests in the order in which they were written, each with the
  -- batches up to the one that completes it, whatever the interleaving of writes and reads. It holds
  -- back fewer than `MAX_CACHE_SIZE` batches.
  pub run-routed :
      (parameters : List (Text × Text)) (events : List Event) (t : Receiver)
      → run p (initial parameters) events ≡ running t
      → (t.sent ++ held_back t.rsp_queue t.message_cache
          ≡ routed (requests events) (batches events))
        × (length t.message_cache < max_cache_size)
  run-routed parameters events t e =
      let a : Steps (initial parameters) t (requests events) (batches events) =
        run-Steps events (initial parameters) t
          (record { no_request = λ _. refl; bounded = omega arith }) e in
      (
        sym (append-nil (delivered t))
            ∙ ap (◌++◌ (delivered t)) (sym (routed-nil (t.rsp_queue ++ [])))
            ∙ a.routes [] []
            ∙ rw (append-nil (requests events), append-nil (batches events)) refl,
        a.valid.bounded,
      )

-- ===== src/Connection/Receiver/Held.antt =====
-- When the reading coroutine of src/connection.rs sends what it holds back, and when it does not.
use mathlib.Core.Path.{subst}
use may_postgres.Base.{
  ℕ, ◌+◌, ◌<◌, Bool, true, false, List, [], ◌∷◌, ◌++◌, ◌≡◌, refl, sym, ap, ◌∙◌, arith, append-nil,
  length, length-append, Bytes, Text, returns,
}
use may_postgres.Protocol.{Protocol}
use may_postgres.Codec.{normal, async}
use may_postgres.Connection.Receiver.{
  Receiver, max_cache_size, initial, drain, drain_full, complete_request, on_normal, on_message,
  Event, pushed, arrives, fails, running, status_of, on_event, run,
}
use may_postgres.Connection.Receiver.Batches.{
  requests, batches, routed, held_back, batch_result, batch_result-Batched,
}
use may_postgres.Connection.Receiver.Steps.{held_back-nil, async-same, unrequested-closed}
use may_postgres.Connection.Receiver.Routing.{resumed, run-routed}

-- None of the batches completes a request.
abbrev pub IsPartial : List (Bytes × Bool) → Type 0
IsPartial [] = Unit
IsPartial ((b, complete) ∷ bs) = (complete ≡ false) × IsPartial bs

IsPartial-cons :
    (event : Event) (events : List Event)
    → IsPartial (batches (event ∷ events))
    → IsPartial (batches (event ∷ [])) × IsPartial (batches events)
IsPartial-cons (pushed channel) events h = (tt, h)
IsPartial-cons (fails x) events h = (tt, h)
IsPartial-cons (arrives (async m)) events h = (tt, h)
IsPartial-cons (arrives (normal b c)) events h = ((h.0, tt), h.1)

length-batches :
    (event : Event) (events : List Event)
    → length (batches (event ∷ events)) ≡ length (batches (event ∷ [])) + length (batches events)
length-batches (pushed channel) events = omega arith
length-batches (fails x) events = omega arith
length-batches (arrives (async m)) events = omega arith
length-batches (arrives (normal b c)) events = omega arith

module _ (p : Protocol) where
  complete-flushed :
      (b : Bytes) (queue : List ℕ) (r t : Receiver)
      → r.rsp_queue ≡ queue
      → status_of r (returns (on_normal p queue b true r)) ≡ running t
      → t.message_cache ≡ []
  unfolding on_normal status_of
  complete-flushed b [] r t q e = absurd (unrequested-closed (p.parse_message b) r t e)
  complete-flushed b (channel ∷ queue) r t q e =
      let same : batch_result channel queue b true r ≡ t = ground arith in
      subst (λ x. x.message_cache ≡ []) same
        ((batch_result-Batched channel queue b true r q).flushed refl)

  run_complete :
      (b : Bytes) (events : List Event) (r t : Receiver)
      → run p r (events ++ arrives (normal b true) ∷ []) ≡ running t
      → t.message_cache ≡ []
  run_complete b [] r t e =
      let (s, one, none_left) = resumed p (arrives (normal b true)) [] r t e in
      let same : s ≡ t = unfold run in ground arith in
      subst (λ x. x.message_cache ≡ []) same
        (unfold on_event on_message in complete-flushed b r.rsp_queue r s refl one)
  run_complete b (event ∷ events) r t e =
      let (s, one, others) = resumed p event (events ++ arrives (normal b true) ∷ []) r t e in
      run_complete b events s t others

  -- When a batch that completes a request has been handled, all that was received has been sent, each
  -- batch to the request that it belongs to, and nothing is held back.
  pub run-complete_sent :
      (parameters : List (Text × Text)) (events : List Event) (b : Bytes) (t : Receiver)
      → run p (initial parameters) (events ++ arrives (normal b true) ∷ []) ≡ running t
      → t.sent
        ≡ routed
            (requests (events ++ arrives (normal b true) ∷ []))
            (batches (events ++ arrives (normal b true) ∷ []))
  run-complete_sent parameters events b t e =
      let flushed : t.message_cache ≡ [] = run_complete b events (initial parameters) t e in
      sym (append-nil t.sent)
      ∙ ap (◌++◌ t.sent) (sym (ap (held_back t.rsp_queue) flushed ∙ held_back-nil t.rsp_queue))
      ∙ (run-routed p parameters (events ++ arrives (normal b true) ∷ []) t e).0

  partial_batch :
      (b : Bytes) (c : Bool) (queue : List ℕ) (r s : Receiver)
      → c ≡ false
      → length r.message_cache + 1 < max_cache_size
      → status_of r (returns (on_normal p queue b c r)) ≡ running s
      → (s.sent ≡ r.sent) × (length s.message_cache ≡ length r.message_cache + 1)
  unfolding on_normal status_of complete_request drain_full drain
  partial_batch b c [] r s partial room e = absurd (unrequested-closed (p.parse_message b) r s e)
  partial_batch b c (channel ∷ queue) r s partial room e =
      ground (arith, length-append r.message_cache (b ∷ []))

  partial_step :
      (event : Event) (r s : Receiver)
      → IsPartial (batches (event ∷ []))
      → length r.message_cache + length (batches (event ∷ [])) < max_cache_size
      → on_event p event r ≡ running s
      → (s.sent ≡ r.sent)
        × (length s.message_cache ≡ length r.message_cache + length (batches (event ∷ [])))
  unfolding on_event
  partial_step (pushed channel) r s partial room e = ground arith
  partial_step (fails x) r s partial room e = ground arith
  partial_step (arrives (async m)) r s partial room e =
      let (q, c, d) = async-same p m r s e in (d, omega (arith, ap length c))
  partial_step (arrives (normal b c)) r s partial room e =
      unfold on_message in partial_batch b c r.rsp_queue r s partial.0 (omega arith) e

  run-partial :
      (events : List Event) (r t : Receiver)
      → IsPartial (batches events)
      → length r.message_cache + length (batches events) < max_cache_size
      → run p r events ≡ running t
      → t.sent ≡ r.sent
  run-partial [] r t partial room e = unfold run in ground arith
  run-partial (event ∷ events) r t partial room e =
      let (s, one, others) = resumed p event events r t e in
      let (first, later) = IsPartial-cons event events partial in
      let l = length-batches event events in
      let (same, grown) = partial_step event r s first (omega (arith, l)) one in
      run-partial events s t later (omega (arith, l, grown)) others ∙ same

  -- Fewer than `MAX_CACHE_SIZE` batches of which none completes a request are held back: nothing is
  -- sent to any request, although all of them have arrived.
  pub run-withheld :
      (parameters : List (Text × Text)) (events : List Event) (t : Receiver)
      → IsPartial (batches events)
      → length (batches events) < max_cache_size
      → run p (initial parameters) events ≡ running t
      → (t.sent ≡ [])
        × (held_back t.rsp_queue t.message_cache ≡ routed (requests events) (batches events))
  run-withheld parameters events t partial room e =
      let none_sent : t.sent ≡ [] =
        run-partial events (initial parameters) t partial (omega arith) e in
      (
        none_sent,
        ap (λ l. l ++ held_back t.rsp_queue t.message_cache) (sym none_sent)
            ∙ (run-routed p parameters events t e).0,
      )

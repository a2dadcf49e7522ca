-- ===== src/Tests/Routing.antt =====
-- Two requests whose answers arrive in three batches.
use may_postgres.Base.{◌<◌, List, [], ◌∷◌, ◌++◌, ◌≡◌, refl, true, false, arith, length}
use may_postgres.Codec.{normal, async}
use may_postgres.Protocol.{notice_response}
use may_postgres.Connection.Receiver.{
  Receiver, max_cache_size, initial, drain, drain_full, complete_request, on_normal, on_message,
  Event, pushed, arrives, running, status_of, on_event, resume, run,
}
use may_postgres.Connection.Receiver.Batches.{requests, batches, routed, held_back}
use may_postgres.Connection.Receiver.Routing.{run-routed}
use may_postgres.Connection.Receiver.Held.{run-complete_sent, run-withheld}
use may_postgres.Tests.Wire.{wire}
use may_postgres.Tests.Decoding.{bound, ready}

abbrev written : List Event
written = pushed 7 ∷ arrives (normal bound false) ∷ pushed 8 ∷ arrives (async notice_response) ∷ []

abbrev events : List Event
events = written ++ arrives (normal ready true) ∷ arrives (normal bound false) ∷ []

abbrev waiting : Receiver
waiting = record {
  parameters = [];
  rsp_queue = 8 ∷ [];
  message_cache = bound ∷ [];
  sent = (7, bound) ∷ (7, ready) ∷ [];
}

waits : run wire (initial []) events ≡ running waiting
unfolding run resume on_event status_of on_message on_normal complete_request drain_full drain
waits = refl

run-routed_example :
    (waiting.sent ++ held_back waiting.rsp_queue waiting.message_cache
      ≡ routed (requests events) (batches events))
    × (length waiting.message_cache < max_cache_size)
run-routed_example = run-routed wire [] events waiting waits

abbrev answered : Receiver
answered = record {
  parameters = [];
  rsp_queue = 8 ∷ [];
  message_cache = [];
  sent = (7, bound) ∷ (7, ready) ∷ [];
}

answers : run wire (initial []) (written ++ arrives (normal ready true) ∷ []) ≡ running answered
unfolding run resume on_event status_of on_message on_normal complete_request drain_full drain
answers = refl

run-complete_sent_example :
    answered.sent
    ≡ routed
        (requests (written ++ arrives (normal ready true) ∷ []))
        (batches (written ++ arrives (normal ready true) ∷ []))
run-complete_sent_example = run-complete_sent wire [] written ready answered answers

abbrev withheld : Receiver
withheld = record { parameters = []; rsp_queue = 7 ∷ 8 ∷ []; message_cache = bound ∷ []; sent = [] }

withholds : run wire (initial []) written ≡ running withheld
unfolding run resume on_event status_of on_message on_normal complete_request drain_full drain
withholds = refl

run-withheld_example :
    (withheld.sent ≡ [])
    × (held_back withheld.rsp_queue withheld.message_cache
        ≡ routed (requests written) (batches written))
run-withheld_example = run-withheld wire [] written withheld (refl, tt) (omega arith) withholds

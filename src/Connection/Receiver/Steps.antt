-- ===== src/Connection/Receiver/Steps.antt =====
-- One event of the reading coroutine of src/connection.rs against the routing.
use may_postgres.Base.{
  ℕ, Bool, true, false, List, [], ◌∷◌, ◌++◌, Option, none, some, ◌≡◌, refl, sym, ap, ◌∙◌,
  if◌then◌else◌, inl, inr, Bool-cases, arith, append_assoc, Bytes, Result, ok, err, returns,
}
use mathlib.Core.Path.{subst}
use mathlib.Core.List.{concat-ne-nil}
use may_postgres.Protocol.{error_response, IoError, Message, Protocol}
use may_postgres.Codec.{normal, async}
use may_postgres.Connection.Receiver.{
  Receiver, to_channel, unrequested, on_normal, on_message, Event, pushed, arrives, fails, running,
  status_of, on_event,
}
use may_postgres.Connection.Receiver.Batches.{
  requests, batches, routed, held_back, delivered, IsValid, to_channel-append, Batched,
  batch_result, batch_result-Batched,
}

pub unrequested-closed :
    (m : Result IoError (Option (Message × Bytes))) (r s : Receiver)
    → ¬ (status_of r (returns (unrequested m)) ≡ running s)
unfolding unrequested status_of
unrequested-closed (err x) r s e = absurd (ground arith)
unrequested-closed (ok none) r s e = absurd (ground arith)
unrequested-closed (ok (some (error_response fields, rest))) r s e = absurd (ground arith)
unrequested-closed (ok (some (_, rest))) r s e = absurd (ground arith)

pub held_back-nil : (queue : List ℕ) → held_back queue [] ≡ []
held_back-nil [] = refl
held_back-nil (_ ∷ _) = refl

held_back-append :
    (queue : List ℕ) (channel : ℕ) (cache : List Bytes)
    → (queue ≡ [] → cache ≡ [])
    → held_back (queue ++ channel ∷ []) cache ≡ held_back queue cache
held_back-append [] channel cache h = rw (h refl) refl
held_back-append (x ∷ xs) channel cache h = refl

-- A step from `r` to `s` on an event that brings the requests `qs` and the batches `bs`.
pub record Steps (r s : Receiver) (qs : List ℕ) (bs : List (Bytes × Bool)) : Type 0 where
  pub valid : IsValid s
  pub routes :
      (later : List ℕ) (more : List (Bytes × Bool))
      → delivered s ++ routed (s.rsp_queue ++ later) more
        ≡ delivered r ++ routed (r.rsp_queue ++ (qs ++ later)) (bs ++ more)

push-Steps :
    (channel : ℕ) (r : Receiver)
    → IsValid r
    → Steps r (record r { rsp_queue = r.rsp_queue ++ channel ∷ [] }) (channel ∷ []) []
push-Steps channel r v = record {
  valid = record {
    no_request = λ e. absurd (concat-ne-nil channel r.rsp_queue e);
    bounded = v.bounded;
  };
  routes = λ later more.
      rw
        (
          held_back-append r.rsp_queue channel r.message_cache v.no_request,
          append_assoc r.rsp_queue (channel ∷ []) later,
        )
        refl;
}

pub same-Steps :
    (r s : Receiver)
    → IsValid r
    → s.rsp_queue ≡ r.rsp_queue
    → s.message_cache ≡ r.message_cache
    → s.sent ≡ r.sent
    → Steps r s [] []
same-Steps r s v q c d = record {
  valid = record { no_request = rw (q, c) v.no_request; bounded = rw c v.bounded };
  routes = λ later more. rw (q, c, d) refl;
}

routed-cons :
    (channel : ℕ) (b : Bytes) (queue later : List ℕ) (complete : Bool) (more : List (Bytes × Bool))
    → ◌≡◌ {A = List (ℕ × Bytes)}
        ((channel, b) ∷ routed ((if complete then queue else channel ∷ queue) ++ later) more)
        (routed (channel ∷ (queue ++ later)) ((b, complete) ∷ more))
routed-cons channel b queue later true more = refl
routed-cons channel b queue later false more = refl

module _ (channel : ℕ) (queue : List ℕ) (b : Bytes) (complete : Bool) (r s : Receiver)
    (first : r.rsp_queue ≡ channel ∷ queue) (a : Batched channel queue b complete r s) where
  same_channel : held_back s.rsp_queue s.message_cache ≡ to_channel channel s.message_cache
  same_channel = elim (Bool-cases complete) [
    | inl c ↦ rw (a.flushed c) (held_back-nil s.rsp_queue)
    | inr c ↦
        let q : s.rsp_queue ≡ channel ∷ queue =
          a.queue_is ∙ ap (λ x. if x then queue else channel ∷ queue) c in
        ap (λ x. held_back x s.message_cache) q
  ]

  batch-delivered : delivered s ≡ delivered r ++ (channel, b) ∷ []
  batch-delivered =
      ap (◌++◌ s.sent) same_channel
      ∙ a.delivered_is
      ∙ ap (◌++◌ r.sent) (to_channel-append channel r.message_cache (b ∷ []))
      ∙ sym (append_assoc r.sent (to_channel channel r.message_cache) ((channel, b) ∷ []))
      ∙ ap (λ x. (r.sent ++ held_back x r.message_cache) ++ (channel, b) ∷ []) (sym first)

  batch-Steps : Steps r s [] ((b, complete) ∷ [])
  batch-Steps = record {
    valid = record {
      no_request = λ e. elim (Bool-cases complete) [
        | inl c ↦ a.flushed c
        | inr c ↦ absurd (ground (arith, a.queue_is))
      ];
      bounded = a.bounded;
    };
    routes = λ later more. rw batch-delivered (
        append_assoc (delivered r) ((channel, b) ∷ []) _
        ∙ ap (◌++◌ (delivered r)) (
            ap (λ x. (channel, b) ∷ routed (x ++ later) more) a.queue_is
            ∙ routed-cons channel b queue later complete more
            ∙ ap (λ x. routed (x ++ later) ((b, complete) ∷ more)) (sym first)));
  }

pub async-same :
    (p : Protocol) (m : Message) (r s : Receiver)
    → status_of r (on_message p (async m) r) ≡ running s
    → (s.rsp_queue ≡ r.rsp_queue) × (s.message_cache ≡ r.message_cache) × (s.sent ≡ r.sent)
unfolding status_of on_message
async-same p m r s e = ground arith

module _ (p : Protocol) where
  normal-Steps :
      (b : Bytes) (c : Bool) (queue : List ℕ) (r s : Receiver)
      → IsValid r
      → r.rsp_queue ≡ queue
      → status_of r (returns (on_normal p queue b c r)) ≡ running s
      → Steps r s [] ((b, c) ∷ [])
  unfolding status_of on_normal
  normal-Steps b c [] r s v q e = absurd (unrequested-closed (p.parse_message b) r s e)
  normal-Steps b c (channel ∷ queue) r s v q e =
      let same : batch_result channel queue b c r ≡ s = ground arith in
      batch-Steps channel queue b c r s q
        (subst (Batched channel queue b c r) same (batch_result-Batched channel queue b c r q))

  -- The requests and the batches of one event.
  pub on_event-Steps :
      (event : Event) (r s : Receiver)
      → IsValid r
      → on_event p event r ≡ running s
      → Steps r s (requests (event ∷ [])) (batches (event ∷ []))
  unfolding on_event
  on_event-Steps (pushed channel) r s v e =
      let same : record r { rsp_queue = r.rsp_queue ++ channel ∷ [] } ≡ s = ground arith in
      subst (λ x. Steps r x (channel ∷ []) []) same (push-Steps channel r v)
  on_event-Steps (fails x) r s v e = absurd (ground arith)
  on_event-Steps (arrives (normal b c)) r s v e =
      unfold on_message in normal-Steps b c r.rsp_queue r s v refl e
  on_event-Steps (arrives (async m)) r s v e =
      let (q, c, d) = async-same p m r s e in same-Steps r s v q c d

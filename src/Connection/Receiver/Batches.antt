-- ===== src/Connection/Receiver/Batches.antt =====
-- The routing of batches described without the coroutine, and what one batch does.
use may_postgres.Base.{
  ℕ, ◌<◌, Bool, true, false, List, [], ◌∷◌, ◌++◌, ◌≡◌, refl, ap, leb, if◌then◌else◌, inl, inr,
  Bool-cases, arith, append-nil, length, Bytes,
}
use may_postgres.Codec.{normal, async}
use may_postgres.Connection.Receiver.{
  Receiver, max_cache_size, to_channel, drain, drain_full, complete_request, Event, pushed, arrives,
  fails,
}

-- The requests written, in order.
abbrev pub requests : List Event → List ℕ
requests [] = []
requests (pushed channel ∷ events) = channel ∷ requests events
requests (arrives _ ∷ events) = requests events
requests (fails _ ∷ events) = requests events

-- The batches received, in order.
abbrev pub batches : List Event → List (Bytes × Bool)
batches [] = []
batches (arrives (normal messages complete) ∷ events) = (messages, complete) ∷ batches events
batches (arrives (async _) ∷ events) = batches events
batches (pushed _ ∷ events) = batches events
batches (fails _ ∷ events) = batches events

-- Each request gets the batches up to the one that completes it.
abbrev pub routed : List ℕ → List (Bytes × Bool) → List (ℕ × Bytes)
routed [] bs = []
routed (channel ∷ queue) [] = []
routed (channel ∷ queue) ((b, true) ∷ bs) = (channel, b) ∷ routed queue bs
routed (channel ∷ queue) ((b, false) ∷ bs) = (channel, b) ∷ routed (channel ∷ queue) bs

-- The batches held back are those of the first request in the queue.
abbrev pub held_back : List ℕ → List Bytes → List (ℕ × Bytes)
held_back [] cache = []
held_back (channel ∷ _) cache = to_channel channel cache

abbrev pub delivered : Receiver → List (ℕ × Bytes)
delivered r = r.sent ++ held_back r.rsp_queue r.message_cache

pub record IsValid (r : Receiver) : Type 0 where
  pub no_request : r.rsp_queue ≡ [] → r.message_cache ≡ []
  pub bounded : length r.message_cache < max_cache_size

pub to_channel-append :
    (channel : ℕ) (xs ys : List Bytes)
    → to_channel channel (xs ++ ys) ≡ to_channel channel xs ++ to_channel channel ys
to_channel-append channel [] ys = refl
to_channel-append channel (x ∷ xs) ys = ap (◌∷◌ (channel, x)) (to_channel-append channel xs ys)

pub routed-nil : (queue : List ℕ) → routed queue [] ≡ []
routed-nil [] = refl
routed-nil (_ ∷ _) = refl

-- What a batch for the first request in the queue leaves.
pub record Batched (channel : ℕ) (queue : List ℕ) (b : Bytes) (complete : Bool) (r t : Receiver)
    : Type 0 where
  pub delivered_is :
      t.sent ++ to_channel channel t.message_cache
      ≡ r.sent ++ to_channel channel (r.message_cache ++ b ∷ [])
  pub queue_is : t.rsp_queue ≡ (if complete then queue else channel ∷ queue)
  pub bounded : length t.message_cache < max_cache_size
  pub flushed : complete ≡ true → t.message_cache ≡ []

abbrev pub batch_result : ℕ → List ℕ → Bytes → Bool → Receiver → Receiver
batch_result channel queue b complete r =
    complete_request complete channel queue
      (drain_full channel (record r { message_cache = r.message_cache ++ b ∷ [] }))

pub batch_result-Batched :
    (channel : ℕ) (queue : List ℕ) (b : Bytes) (complete : Bool) (r : Receiver)
    → r.rsp_queue ≡ channel ∷ queue
    → Batched channel queue b complete r (batch_result channel queue b complete r)
unfolding drain_full drain complete_request
batch_result-Batched channel queue b true r e =
    elim (Bool-cases (leb max_cache_size (length (r.message_cache ++ b ∷ [])))) [
      | inl full ↦ record {
        delivered_is = rw full (simp append-nil);
        queue_is = refl;
        bounded = omega arith;
        flushed = λ _. refl;
      }
      | inr room ↦ record {
        delivered_is = rw room (simp append-nil);
        queue_is = refl;
        bounded = omega arith;
        flushed = λ _. refl;
      }
    ]
batch_result-Batched channel queue b false r e =
    elim (Bool-cases (leb max_cache_size (length (r.message_cache ++ b ∷ [])))) [
      | inl full ↦ record {
        delivered_is = rw full (simp append-nil);
        queue_is = rw full e;
        bounded = rw full (omega arith);
        flushed = λ c. cc;
      }
      | inr room ↦ record {
        delivered_is = rw room refl;
        queue_is = rw room e;
        bounded = rw room (ground arith);
        flushed = λ c. cc;
      }
    ]

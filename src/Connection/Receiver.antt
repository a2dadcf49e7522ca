-- ===== src/Connection/Receiver.antt =====
-- The reading coroutine of `Connection::new` in src/connection.rs. The writing coroutine pushes onto
-- the response queue while it runs, so its input is a sequence of events of both.
pub mod Batches
pub mod Steps
pub mod Routing
pub mod Held
use may_postgres.Base.{
  ℕ, ◌≤◌, Bool, true, false, List, [], ◌∷◌, ◌++◌, map, Option, none, some, leb, if◌then◌else◌,
  length, Bytes, Text, Result, ok, err, ◌>>=◌, map_err, Run, returns, panics, out_of_fuel,
}
use may_postgres.Protocol.{
  IoError, Message, Protocol, error_response, notice_response, notification_response,
  parameter_status,
}
use may_postgres.Error.{Error, parse_error, io_failure, db_failure, unexpected_message_error}
use may_postgres.Codec.{BackendMessage, normal, async}

abbrev pub max_cache_size : ℕ
max_cache_size = 128

-- `sent` records the calls `response.tx.send(msg)`: the channel and the batch. A `Response` is the
-- number of its channel. `parameters` has its newest entries first.
pub record Receiver : Type 0 where
  pub parameters : List (Text × Text)
  pub rsp_queue : List ℕ
  pub message_cache : List Bytes
  pub sent : List (ℕ × Bytes)

abbrev pub initial : List (Text × Text) → Receiver
initial parameters = record {
  parameters = parameters;
  rsp_queue = [];
  message_cache = [];
  sent = [];
}

abbrev pub to_channel : ℕ → List Bytes → List (ℕ × Bytes)
to_channel channel [] = []
to_channel channel (b ∷ bs) = (channel, b) ∷ to_channel channel bs

-- `for msg in message_cache.drain(..) { response.tx.send(msg).ok(); }`
unfoldable pub drain : ℕ → Receiver → Receiver
drain channel r = record r {
  sent = r.sent ++ to_channel channel r.message_cache;
  message_cache = [];
}

unfoldable pub drain_full : ℕ → Receiver → Receiver
drain_full channel r = if leb max_cache_size (length r.message_cache) then drain channel r else r

unfoldable pub complete_request : Bool → ℕ → List ℕ → Receiver → Receiver
complete_request true channel queue r = record (drain channel r) { rsp_queue = queue }
complete_request false channel queue r = r

abbrev pub Outcome : Type 0
Outcome = Run (Result Error Receiver)

-- A batch that no request waits for.
unfoldable pub unrequested : Result IoError (Option (Message × Bytes)) → Result Error Receiver
unrequested (err e) = err (parse_error e)
unrequested (ok (some (error_response fields, rest))) = err (db_failure fields)
unrequested (ok _) = err unexpected_message_error

module _ (p : Protocol) where
  unfoldable pub on_normal : List ℕ → Bytes → Bool → Receiver → Result Error Receiver
  on_normal [] messages request_complete r = unrequested (p.parse_message messages)
  on_normal (channel ∷ queue) messages request_complete r = ok (
      complete_request request_complete channel queue
        (drain_full channel (record r { message_cache = r.message_cache ++ messages ∷ [] })))

  -- The arms of the `match` on a message; `unreachable!` is a panic.
  unfoldable pub on_message : BackendMessage → Receiver → Outcome
  on_message (async notice_response) r = returns (ok r)
  on_message (async notification_response) r = returns (ok r)
  on_message (async (parameter_status name value)) r = returns (do
    n ← map_err parse_error name
    v ← map_err parse_error value
    ok (record r { parameters = (n, v) ∷ r.parameters }))
  on_message (async _) r = panics
  on_message (normal messages request_complete) r =
      returns (on_normal r.rsp_queue messages request_complete r)

-- What happens to the coroutine: the writer pushes a response, or `next_msg` returns.
pub data Event : Type 0 where
  pushed : ℕ → Event
  arrives : BackendMessage → Event
  fails : IoError → Event

-- An error ends `main`. Behind it stand a request to terminate and the shutdown of the stream.
pub data Status : Type 0 where
  running : Receiver → Status
  closed : Error → Receiver → Status
  panicked : Status

unfoldable pub status_of : Receiver → Outcome → Status
status_of r (returns (ok r')) = running r'
status_of r (returns (err e)) = closed e r
status_of r panics = panicked
status_of r out_of_fuel = panicked

unfoldable pub on_event : Protocol → Event → Receiver → Status
on_event p (pushed channel) r = running (record r { rsp_queue = r.rsp_queue ++ channel ∷ [] })
on_event p (arrives message) r = status_of r (on_message p message r)
on_event p (fails e) r = closed (io_failure e) r

unfoldable pub resume : Status → (Receiver → Status) → Status
resume (running r) continue = continue r
resume (closed e r) continue = closed e r
resume panicked continue = panicked

-- The loop of `main`.
unfoldable pub run : Protocol → Receiver → List Event → Status
run p r [] = running r
run p r (event ∷ events) = resume (on_event p event r) (λ r'. run p r' events)

-- ===== src/Connection/Sender/Requests.antt =====
-- The requests to the writing coroutine of src/connection.rs described without it: their bytes and
-- their response channels.
use may_postgres.Base.{ℕ, Bool, true, false, if◌then◌else◌, List, [], ◌∷◌, ◌++◌, Bytes}
use may_postgres.Protocol.{Frontend}
use may_postgres.Connection.Sender.{
  Channel, end, got, empty, disconnected, CopyInMessage, RequestMessages, single, copy_in, Request,
  bytes_of, copy_message, is_done, abort_message,
}

module _ (frontend : Frontend) where
  -- The bytes of a COPY, up to its end.
  abbrev pub copy_bytes : Bool → Channel CopyInMessage → Bytes
  copy_bytes true _ = []
  copy_bytes false end = []
  copy_bytes false (got m messages) =
      bytes_of frontend (copy_message frontend m) ++ copy_bytes (is_done m) messages
  copy_bytes false (empty messages) = copy_bytes false messages
  copy_bytes false disconnected = bytes_of frontend (abort_message frontend)

  -- Whether the end of a COPY is seen.
  abbrev pub copy_ends : Bool → Channel CopyInMessage → Bool
  copy_ends true _ = true
  copy_ends false end = false
  copy_ends false (got m messages) = copy_ends (is_done m) messages
  copy_ends false (empty messages) = copy_ends false messages
  copy_ends false disconnected = true

  abbrev pub request_bytes : RequestMessages → Bytes
  request_bytes (single m) = bytes_of frontend m
  request_bytes (copy_in messages) = copy_bytes false messages

  abbrev pub request_ends : RequestMessages → Bool
  request_ends (single m) = true
  request_ends (copy_in messages) = copy_ends false messages

  -- The bytes of the requests in order, up to the first COPY that does not end.
  abbrev pub all_bytes : Channel Request → Bytes
  all_bytes end = []
  all_bytes (got req requests) =
      request_bytes req.messages ++ (if request_ends req.messages then all_bytes requests else [])
  all_bytes (empty requests) = all_bytes requests
  all_bytes disconnected = []

  -- Their response channels.
  abbrev pub senders : Channel Request → List ℕ
  senders end = []
  senders (got req requests) =
      req.sender ∷ (if request_ends req.messages then senders requests else [])
  senders (empty requests) = senders requests
  senders disconnected = []

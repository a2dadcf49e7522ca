-- ===== src/Connection/Sender/Order.antt =====
-- The order in which the writing coroutine of src/connection.rs sends, and that it sends all it has
-- before it waits.
use mathlib.Core.Path.{subst}
use may_postgres.Base.{
  ℕ, Bool, true, false, if◌then◌else◌, List, [], ◌∷◌, ◌++◌, ◌≡◌, refl, sym, ap, ◌∙◌, append-nil,
  append_assoc, Bytes,
}
use may_postgres.Protocol.{IoError, Frontend}
use may_postgres.VecBuf.{Writer}
use may_postgres.VecBuf.Pending.{pending}
use may_postgres.Connection.Sender.{
  Channel, end, got, empty, disconnected, FrontendMessage, CopyInMessage, RequestMessages, single,
  copy_in, Request, Mode, trying, yielded, blocked, bytes_of, copy_message, is_done, abort_message,
  Sender, Outcome, and_then, at_end, write, flush_all, copy_loop, serve_messages, serve, send_loop,
}
use may_postgres.Connection.Sender.Reaches.{
  Prefix, Prefix_refl, handed, IsOpen, Reached, Reaches, and_then-Reaches, and_then-stops,
  write-Reaches, flush_all-Reaches, and_then-Flush, FlushReaches,
}
use may_postgres.Connection.Sender.Requests.{
  copy_bytes, copy_ends, request_bytes, request_ends, all_bytes, senders,
}

module _ (writer : Writer IoError) (frontend : Frontend) (idle : ℕ) where
  open writer use {Stream}

  -- A coroutine that waits has sent everything.
  abbrev Quiet : Mode → Sender Stream → Type 0
  Quiet blocked s = pending s.writer ≡ []
  Quiet trying s = Unit
  Quiet yielded s = Unit

  Prefix-append : {A : Type 0} (xs ys : List A) → Prefix xs (xs ++ ys)
  Prefix-append xs ys = (ys, refl)

  at_end-Reaches :
      (mode : Mode) (s : Sender Stream) (total : Bytes) (queue : List ℕ)
      → Quiet mode s
      → Reached writer total queue s
      → Reaches writer idle false total queue (at_end mode s)
  at_end-Reaches trying s total queue quiet h = (refl, h)
  at_end-Reaches yielded s total queue quiet h = (refl, h)
  at_end-Reaches blocked s total queue quiet h = (refl, (h, quiet))

  write_from :
      (m : FrontendMessage) (s : Sender Stream) (total : Bytes) (queue : List ℕ)
      → Reached writer total queue s
      → Reaches writer idle true
          (total ++ bytes_of frontend m)
          queue
          (write writer frontend idle m s)
  write_from m s total queue h =
      subst
        (λ q.
          Reaches writer idle true (total ++ bytes_of frontend m) q
            (write writer frontend idle m s))
        h.queue_is
        (subst
          (λ l.
            Reaches writer idle true (l ++ bytes_of frontend m) s.rsp_queue
              (write writer frontend idle m s))
          h.handed_is (write-Reaches writer frontend idle m s h.is_open))

  flush_from :
      (s : Sender Stream) (total : Bytes) (queue : List ℕ)
      → Reached writer total queue s
      → FlushReaches writer idle total queue (flush_all writer frontend idle s)
  flush_from s total queue h =
      subst (λ q. FlushReaches writer idle total q (flush_all writer frontend idle s)) h.queue_is
        (subst (λ l. FlushReaches writer idle l s.rsp_queue (flush_all writer frontend idle s))
          h.handed_is (flush_all-Reaches writer frontend idle s h.is_open))

  then_write :
      (finished : Bool) (b rest total : Bytes) (queue more : List ℕ) (m : FrontendMessage)
      (s : Sender Stream)
      → bytes_of frontend m ≡ b
      → (f : Sender Stream → Outcome Stream) → Reached writer total queue s
      → Prefix queue more
      → ((t : Sender Stream)
          → Reached writer (total ++ b) queue t
          → Reaches writer idle finished ((total ++ b) ++ rest) more (f t))
      → Reaches writer idle finished
          (total ++ (b ++ rest))
          more
          (and_then (write writer frontend idle m s) f)
  then_write finished b rest total queue more m s e f h p next =
      and_then-Reaches writer idle finished (total ++ b) (total ++ (b ++ rest)) queue more
        (write writer frontend idle m s) f
        (subst (λ l. Reaches writer idle true (total ++ l) queue (write writer frontend idle m s)) e
          (write_from m s total queue h))
        (rest, append_assoc total b rest) p
        (λ t g.
          subst (λ l. Reaches writer idle finished l more (f t)) (append_assoc total b rest)
            (next t g))

  then_flush :
      (finished : Bool) (rest total : Bytes) (queue more : List ℕ) (s : Sender Stream)
      (f : Sender Stream → Outcome Stream)
      → Reached writer total queue s
      → Prefix queue more
      → ((t : Sender Stream)
          → Reached writer total queue t
          → pending t.writer ≡ []
          → Reaches writer idle finished (total ++ rest) more (f t))
      → Reaches writer idle finished
          (total ++ rest)
          more
          (and_then (flush_all writer frontend idle s) f)
  then_flush finished rest total queue more s f h p next =
      and_then-Flush writer idle finished total (total ++ rest) queue more
        (flush_all writer frontend idle s) f (flush_from s total queue h) (rest, refl) p next

  copy_loop-Reaches :
      (mode : Mode) (is_over : Bool) (messages : Channel CopyInMessage) (s : Sender Stream)
      (total : Bytes) (queue : List ℕ)
      → Quiet mode s
      → Reached writer total queue s
      → Reaches writer idle
          (copy_ends frontend is_over messages)
          (total ++ copy_bytes frontend is_over messages)
          queue
          (copy_loop writer frontend idle mode is_over messages s)
  unfolding copy_loop
  copy_loop-Reaches mode true messages s total queue quiet h = rw (append-nil total) (refl, h)
  copy_loop-Reaches mode false end s total queue quiet h =
      rw (append-nil total) (at_end-Reaches mode s total queue quiet h)
  copy_loop-Reaches mode false (got m messages) s total queue quiet h =
      let b = bytes_of frontend (copy_message frontend m) in
      let rest = copy_bytes frontend (is_done m) messages in
      then_write _ b rest total queue queue (copy_message frontend m) s refl
        (copy_loop writer frontend idle trying (is_done m) messages) h (Prefix_refl queue)
        (λ t g. copy_loop-Reaches trying (is_done m) messages t (total ++ b) queue tt g)
  copy_loop-Reaches trying false (empty messages) s total queue quiet h =
      then_flush _ _ total queue queue s (copy_loop writer frontend idle blocked false messages) h
        (Prefix_refl queue) (λ t g n. copy_loop-Reaches blocked false messages t total queue n g)
  copy_loop-Reaches yielded false (empty messages) s total queue quiet h =
      then_flush _ _ total queue queue s (copy_loop writer frontend idle blocked false messages) h
        (Prefix_refl queue) (λ t g n. copy_loop-Reaches blocked false messages t total queue n g)
  copy_loop-Reaches blocked false (empty messages) s total queue quiet h =
      copy_loop-Reaches blocked false messages s total queue quiet h
  copy_loop-Reaches mode false disconnected s total queue quiet h =
      write_from (abort_message frontend) s total queue h

  serve_messages-Reaches :
      (messages : RequestMessages) (s : Sender Stream) (total : Bytes) (queue : List ℕ)
      → Reached writer total queue s
      → Reaches writer idle
          (request_ends frontend messages)
          (total ++ request_bytes frontend messages)
          queue
          (serve_messages writer frontend idle messages s)
  serve_messages-Reaches (single m) s total queue h = write_from m s total queue h
  serve_messages-Reaches (copy_in messages) s total queue h =
      copy_loop-Reaches trying false messages s total queue tt h

  serve-Reaches :
      (req : Request) (s : Sender Stream) (total : Bytes) (queue : List ℕ)
      → Reached writer total queue s
      → Reaches writer idle
          (request_ends frontend req.messages)
          (total ++ request_bytes frontend req.messages)
          (queue ++ req.sender ∷ [])
          (serve writer frontend idle req s)
  serve-Reaches req s total queue h =
      serve_messages-Reaches req.messages (record s { rsp_queue = s.rsp_queue ++ req.sender ∷ [] })
        total (queue ++ req.sender ∷ [])
        (record {
          is_open = record { ready = h.is_open.ready; room = h.is_open.room };
          handed_is = h.handed_is;
          queue_is = ap (λ q. q ++ req.sender ∷ []) h.queue_is;
        })

  then_served :
      (ends : Bool) (b rest total : Bytes) (queue : List ℕ) (c : ℕ) (more : List ℕ)
      (r : Outcome Stream) (f : Sender Stream → Outcome Stream)
      → Reaches writer idle ends (total ++ b) (queue ++ c ∷ []) r
      → ((t : Sender Stream)
          → Reached writer (total ++ b) (queue ++ c ∷ []) t
          → Reaches writer idle false ((total ++ b) ++ rest) ((queue ++ c ∷ []) ++ more) (f t))
      → Reaches writer idle false
          (total ++ (b ++ (if ends then rest else [])))
          (queue ++ c ∷ (if ends then more else []))
          (and_then r f)
  then_served true b rest total queue c more r f h next =
      rw (← append_assoc total b rest, ← append_assoc queue (c ∷ []) more)
        (and_then-Reaches writer idle false (total ++ b) ((total ++ b) ++ rest) (queue ++ c ∷ [])
          ((queue ++ c ∷ []) ++ more) r f h (Prefix-append _ _) (Prefix-append _ _) next)
  then_served false b rest total queue c more r f h next =
      rw (append-nil b) (and_then-stops writer idle (total ++ b) (queue ++ c ∷ []) r f h)

  send_loop-Reaches :
      (mode : Mode) (requests : Channel Request) (s : Sender Stream) (total : Bytes)
      (queue : List ℕ)
      → Quiet mode s
      → Reached writer total queue s
      → Reaches writer idle false
          (total ++ all_bytes frontend requests)
          (queue ++ senders frontend requests)
          (send_loop writer frontend idle mode requests s)
  unfolding send_loop
  send_loop-Reaches mode end s total queue quiet h =
      rw (append-nil total, append-nil queue) (at_end-Reaches mode s total queue quiet h)
  send_loop-Reaches mode (got req requests) s total queue quiet h =
      then_served (request_ends frontend req.messages) (request_bytes frontend req.messages)
        (all_bytes frontend requests) total queue req.sender (senders frontend requests)
        (serve writer frontend idle req s) (send_loop writer frontend idle trying requests)
        (serve-Reaches req s total queue h) (λ t g. send_loop-Reaches trying requests t _ _ tt g)
  send_loop-Reaches trying (empty requests) s total queue quiet h =
      send_loop-Reaches yielded requests s total queue tt h
  send_loop-Reaches yielded (empty requests) s total queue quiet h =
      then_flush _ _ total queue _ s (send_loop writer frontend idle blocked requests) h
        (Prefix-append queue _) (λ t g n. send_loop-Reaches blocked requests t total queue n g)
  send_loop-Reaches blocked (empty requests) s total queue quiet h =
      send_loop-Reaches blocked requests s total queue quiet h
  send_loop-Reaches mode disconnected s total queue quiet h = (
    ([], append-nil _ ∙ h.handed_is ∙ sym (append-nil total)),
    ([], append-nil _ ∙ h.queue_is ∙ sym (append-nil queue)),
  )

  -- The writing coroutine, from an open write buffer: however its channels are polled, the bytes
  -- handed to the buffer are those of the requests in their order, each whole before the next one, a
  -- COPY up to its end, and the response channels are pushed in the same order. When it waits in
  -- `recv`, the stream has taken every byte. An error leaves a front of both. It does not panic, and
  -- it spins only in a flush whose unsent bytes the stream has answered more than `idle` times by
  -- `Ok(0)`.
  pub send_loop-Sends :
      (requests : Channel Request) (s : Sender Stream)
      → IsOpen writer s
      → Reaches writer idle false
          (handed writer s ++ all_bytes frontend requests)
          (s.rsp_queue ++ senders frontend requests)
          (send_loop writer frontend idle trying requests s)
  send_loop-Sends requests s h =
      send_loop-Reaches trying requests s (handed writer s) s.rsp_queue tt
        (record { is_open = h; handed_is = refl; queue_is = refl })

-- ===== src/Connection/Sender/Reaches.antt =====
-- What one write, one flush and a sequence of steps of the writing coroutine reach.
use mathlib.Core.Path.{subst}
use may_postgres.Base.{
  ℕ, zero, suc, ◌+◌, ◌≤◌, ◌<◌, Bool, true, false, List, [], ◌∷◌, ◌++◌, ◌≡◌, refl, sym, ap, ◌∙◌,
  append-nil, append_assoc, arith, length, drop, concat, length-append, length-drop, Bytes, ok, err,
  returns, panics, out_of_fuel,
}
use may_postgres.Protocol.{IoError, Frontend}
use may_postgres.VecBuf.{Writer, max_vec_buf, VecBufs, FlushResult, write_bytes}
use may_postgres.VecBuf.Advance.{cut}
use may_postgres.VecBuf.Pending.{pending, IsReady}
use may_postgres.VecBuf.Flush.{Stalled, Flushes, flush-Flushes}
use may_postgres.VecBuf.Write.{Accepts, empty-IsReady, write_bytes-Accepts}
use may_postgres.Connection.Sender.{
  Sender, FrontendMessage, Outcome, going, paused, waiting, failed, spinning, broken, and_then,
  bytes_of, fuel_for, written_or, write, flush_all,
}

-- `xs` is the front of `ys`.
abbrev pub Prefix {ℓ} : {A : Type ℓ} → List A → List A → Type ℓ
Prefix {A = A} xs ys = (more : List A) × (xs ++ more ≡ ys)

pub Prefix_refl {ℓ} : {A : Type ℓ} (xs : List A) → Prefix xs xs
Prefix_refl xs = ([], append-nil xs)

pub Prefix_trans {ℓ} : {A : Type ℓ} (xs ys zs : List A) → Prefix xs ys → Prefix ys zs → Prefix xs zs
Prefix_trans xs ys zs (a, e) (b, f) = (a ++ b, sym (append_assoc xs a b) ∙ ap (λ l. l ++ b) e ∙ f)

length-cut : (pos : ℕ) (bufs : List Bytes) → length (concat (cut pos bufs)) ≤ length (concat bufs)
length-cut pos [] = omega arith
length-cut pos (buf ∷ bufs) =
    rw (length-append (drop pos buf) (concat bufs), length-append buf (concat bufs))
      (omega (arith, length-drop pos buf))

length-concat-drop :
    (n : ℕ) (bufs : List Bytes) → length (concat (drop n bufs)) ≤ length (concat bufs)
length-concat-drop zero bufs = omega arith
length-concat-drop (suc n) [] = omega arith
length-concat-drop (suc n) (buf ∷ bufs) =
    rw (length-append buf (concat bufs)) (omega (arith, length-concat-drop n bufs))

module _ (writer : Writer IoError) where
  open writer use {Stream, written}

  -- All that was handed to the write buffer: what the stream took, and what is unsent.
  abbrev pub handed : Sender Stream → Bytes
  handed s = written s.writer.writer ++ pending s.writer

  pub record IsOpen (s : Sender Stream) : Type 0 where
    pub ready : IsReady s.writer
    pub room : length s.writer.bufs < max_vec_buf

  pub record Reached (total : Bytes) (queue : List ℕ) (s : Sender Stream) : Type 0 where
    pub is_open : IsOpen s
    pub handed_is : handed s ≡ total
    pub queue_is : s.rsp_queue ≡ queue

  -- A front of `total` is handed over, and the stream has answered what is unsent of it
  -- more than `idle` times by `Ok(0)`.
  abbrev pub Spins : ℕ → Bytes → Type 0
  Spins idle total = (some_of : Bytes) × Stalled writer idle some_of × Prefix some_of total

  Spins-longer :
      (idle : ℕ) (some_of all : Bytes) → Spins idle some_of → Prefix some_of all → Spins idle all
  Spins-longer idle some_of all (b, stalled, p) q = (b, stalled, Prefix_trans _ _ _ p q)

  -- Steps end with `total` handed to the buffer and `queue` pushed. They stop before the end if
  -- `finished` is false, and they wait for more only when all is sent. An error may cut them
  -- short, and so may a stream that answers `Ok(0)` to unsent bytes.
  abbrev pub Reaches : ℕ → Bool → Bytes → List ℕ → Outcome Stream → Type 0
  Reaches idle finished total queue (going s) = (finished ≡ true) × Reached total queue s
  Reaches idle finished total queue (paused s) = (finished ≡ false) × Reached total queue s
  Reaches idle finished total queue (waiting s) =
      (finished ≡ false) × (Reached total queue s × (pending s.writer ≡ []))
  Reaches idle finished total queue (failed e s) =
      Prefix (handed s) total × Prefix s.rsp_queue queue
  Reaches idle finished total queue (spinning s) = Spins idle total × Prefix s.rsp_queue queue
  Reaches idle finished total queue broken = ⊥

  -- A flush ends with everything sent, or with an error.
  abbrev pub FlushReaches : ℕ → Bytes → List ℕ → Outcome Stream → Type 0
  FlushReaches idle total queue (going s) = Reached total queue s × (pending s.writer ≡ [])
  FlushReaches idle total queue (paused s) = ⊥
  FlushReaches idle total queue (waiting s) = ⊥
  FlushReaches idle total queue (failed e s) = Prefix (handed s) total × Prefix s.rsp_queue queue
  FlushReaches idle total queue (spinning s) = Spins idle total × Prefix s.rsp_queue queue
  FlushReaches idle total queue broken = ⊥

  -- Steps that go on, and what follows them.
  pub and_then-Reaches :
      (idle : ℕ) (finished : Bool) (some_of all : Bytes) (queue more : List ℕ) (r : Outcome Stream)
      (f : Sender Stream → Outcome Stream)
      → Reaches idle true some_of queue r
      → Prefix some_of all
      → Prefix queue more
      → ((s : Sender Stream) → Reached some_of queue s → Reaches idle finished all more (f s))
      → Reaches idle finished all more (and_then r f)
  and_then-Reaches idle finished some_of all queue more (going s) f (_, h) p q next = next s h
  and_then-Reaches idle finished some_of all queue more (paused s) f (h, _) p q next =
      absurd (ground arith)
  and_then-Reaches idle finished some_of all queue more (waiting s) f (h, _) p q next =
      absurd (ground arith)
  and_then-Reaches idle finished some_of all queue more (failed e s) f (h, g) p q next =
      (Prefix_trans _ _ _ h p, Prefix_trans _ _ _ g q)
  and_then-Reaches idle finished some_of all queue more (spinning s) f (h, g) p q next =
      (Spins-longer idle some_of all h p, Prefix_trans _ _ _ g q)
  and_then-Reaches idle finished some_of all queue more broken f h p q next = h

  -- Steps that stop before the end.
  pub and_then-stops :
      (idle : ℕ) (total : Bytes) (queue : List ℕ) (r : Outcome Stream)
      (f : Sender Stream → Outcome Stream)
      → Reaches idle false total queue r
      → Reaches idle false total queue (and_then r f)
  and_then-stops idle total queue (going s) f (h, _) = absurd (ground arith)
  and_then-stops idle total queue (paused s) f h = h
  and_then-stops idle total queue (waiting s) f h = h
  and_then-stops idle total queue (failed e s) f h = h
  and_then-stops idle total queue (spinning s) f h = h
  and_then-stops idle total queue broken f h = h

  module _ (frontend : Frontend) (idle : ℕ) where
    fuel_for_enough :
        (buf : Bytes) (v : VecBufs Stream)
        → length (pending v) + length buf + 2 + idle ≤ fuel_for idle buf v
    fuel_for_enough buf v =
        omega (arith, length-cut v.pos (drop v.block v.bufs), length-concat-drop v.block v.bufs)

    of_Accepts :
        (total : Bytes) (r : FlushResult writer) (s : Sender Stream)
        → Accepts writer idle total r
        → Reaches idle true total s.rsp_queue (written_or writer frontend idle r s)
    of_Accepts total (returns (ok _, v)) s h = (
      refl,
      record { is_open = record { ready = h.0; room = h.1 }; handed_is = h.2; queue_is = refl },
    )
    of_Accepts total (returns (err e, v)) s h = (([], append-nil _ ∙ h.1), Prefix_refl s.rsp_queue)
    of_Accepts total panics s h = h
    of_Accepts total out_of_fuel s h = ((total, h, Prefix_refl total), Prefix_refl s.rsp_queue)

    pub write-Reaches :
        (m : FrontendMessage) (s : Sender Stream)
        → IsOpen s
        → Reaches idle true
            (handed s ++ bytes_of frontend m)
            s.rsp_queue
            (write writer frontend idle m s)
    unfolding write
    write-Reaches m s h =
        let buf = bytes_of frontend m in
        of_Accepts _ _ s (
          subst
            (λ l.
              Accepts writer idle l (write_bytes writer (fuel_for idle buf s.writer) buf s.writer))
            (sym (append_assoc (written s.writer.writer) (pending s.writer) buf))
            (write_bytes-Accepts writer idle (fuel_for idle buf s.writer) buf s.writer h.ready
              h.room (fuel_for_enough buf s.writer)))

    of_Flushes :
        (total : Bytes) (r : FlushResult writer) (s : Sender Stream)
        → Flushes writer idle total r
        → FlushReaches idle total s.rsp_queue (written_or writer frontend idle r s)
    of_Flushes total (returns (ok _, v)) s (w, b, k, p) =
        let (ready, none_left) = empty-IsReady writer v b k p in
        (
          record {
            is_open = record { ready = ready; room = omega (arith, ap length b) };
            handed_is = rw (none_left, w) (append-nil total);
            queue_is = refl;
          },
          none_left,
        )
    of_Flushes total (returns (err e, v)) s h = (([], append-nil _ ∙ h.1), Prefix_refl s.rsp_queue)
    of_Flushes total panics s h = h
    of_Flushes total out_of_fuel s h = ((total, h, Prefix_refl total), Prefix_refl s.rsp_queue)

    pub flush_all-Reaches :
        (s : Sender Stream)
        → IsOpen s
        → FlushReaches idle (handed s) s.rsp_queue (flush_all writer frontend idle s)
    unfolding flush_all
    flush_all-Reaches s h = of_Flushes _ _ s (
        flush-Flushes writer idle (fuel_for idle [] s.writer) s.writer h.ready
          (let l = fuel_for_enough [] s.writer in omega (arith, l)))

  pub and_then-Flush :
      (idle : ℕ) (finished : Bool) (some_of all : Bytes) (queue more : List ℕ) (r : Outcome Stream)
      (f : Sender Stream → Outcome Stream)
      → FlushReaches idle some_of queue r
      → Prefix some_of all
      → Prefix queue more
      → ((s : Sender Stream)
          → Reached some_of queue s
          → pending s.writer ≡ []
          → Reaches idle finished all more (f s))
      → Reaches idle finished all more (and_then r f)
  and_then-Flush idle finished some_of all queue more (going s) f (h, n) p q next = next s h n
  and_then-Flush idle finished some_of all queue more (paused s) f h p q next = absurd h
  and_then-Flush idle finished some_of all queue more (waiting s) f h p q next = absurd h
  and_then-Flush idle finished some_of all queue more (failed e s) f (h, g) p q next =
      (Prefix_trans _ _ _ h p, Prefix_trans _ _ _ g q)
  and_then-Flush idle finished some_of all queue more (spinning s) f (h, g) p q next =
      (Spins-longer idle some_of all h p, Prefix_trans _ _ _ g q)
  and_then-Flush idle finished some_of all queue more broken f h p q next = absurd h

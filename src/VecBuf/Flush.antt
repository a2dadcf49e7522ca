-- ===== src/VecBuf/Flush.antt =====
-- `flush` and `write_bytes` of src/vec_buf.rs against a stream that may take only part of a write.
use may_postgres.Base.{
  ℕ, zero, suc, ◌+◌, ◌-◌, ◌≤◌, ◌<◌, [], ◌++◌, ◌≡◌, ◌≢◌, refl, sym, ap, ◌∙◌, ◌⊎◌, inl, inr,
  Bool-cases, ltb, ◌==◌, arith, length, take, drop, length-drop, drop-length, append-nil,
  append_assoc, take-append-drop, Bytes, Result, ok, err, returns, panics, out_of_fuel,
}
use mathlib.Core.Path.{subst}
use native.Mathlib.Decide.{dec_lt, ℕ_discrete}
use may_postgres.VecBuf.{
  Writer, VecBufs, slice_range, advance, FlushResult, after_write, flush_loop, flush,
}
use may_postgres.VecBuf.Advance.{cut, Fits}
use may_postgres.VecBuf.Pending.{
  pending, IsValid, IsReady, pending-done, with_writer, AdvancedBy, advance_by,
}

module _ {E : Type 0} (writer : Writer E) where
  open writer use {Stream, write_vectored, written, takes_prefix, error_takes_nothing}

  -- `Ok(n)` to a write of the unsent bytes, and what follows it in the loop.
  abbrev pub after_taking : ℕ → VecBufs Stream → VecBufs Stream
  after_taking n s =
      advance n
        (record s { writer = (write_vectored s.writer (cut s.pos (drop s.block s.bufs))).1 })

  -- The stream answers the writes of the loop by `Ok`, and at least so many times by `Ok(0)` though
  -- bytes are unsent. The loop then writes the same bytes again.
  pub data Idles : ℕ → VecBufs Stream → Type 0 where
    so_far : {s : VecBufs Stream} → Idles 0 s
    took_none :
        {idle : ℕ} {s : VecBufs Stream}
        → 0 < length (pending s)
        → (write_vectored s.writer (cut s.pos (drop s.block s.bufs))).0 ≡ ok 0
        → Idles idle (after_taking 0 s)
        → Idles (suc idle) s
    took :
        {idle n : ℕ} {s : VecBufs Stream}
        → (write_vectored s.writer (cut s.pos (drop s.block s.bufs))).0 ≡ ok n
        → Idles idle (after_taking n s)
        → Idles idle s

  -- The loop began with `total` taken or unsent, and met more than `idle` answers `Ok(0)`.
  pub record Stalled (idle : ℕ) (total : Bytes) : Type 0 where
    pub start : VecBufs Stream
    pub valid : IsValid start
    pub total_is : written start.writer ++ pending start ≡ total
    pub idles : Idles (suc idle) start

  -- How a flush may end when `total` is what the stream had taken followed by the unsent data, if
  -- `Spins` is so when it lacks fuel.
  abbrev pub FlushesOr : Type 0 → Bytes → FlushResult writer → Type 0
  FlushesOr Spins total (returns (ok _, t)) =
      (written t.writer ≡ total) × (t.bufs ≡ []) × (t.block ≡ 0) × (t.pos ≡ 0)
  FlushesOr Spins total (returns (err _, t)) = IsReady t × (written t.writer ++ pending t ≡ total)
  FlushesOr Spins total panics = ⊥
  FlushesOr Spins total out_of_fuel = Spins

  -- More than `idle` answers `Ok(0)` to unsent bytes are all that can keep a flush from its end.
  abbrev pub Flushes : ℕ → Bytes → FlushResult writer → Type 0
  Flushes idle total r = FlushesOr (Stalled idle total) total r

  FlushesOr-implied :
      {P Q : Type 0} (total : Bytes) (r : FlushResult writer)
      → (P → Q)
      → FlushesOr P total r
      → FlushesOr Q total r
  FlushesOr-implied total (returns (ok _, t)) f h = h
  FlushesOr-implied total (returns (err _, t)) f h = h
  FlushesOr-implied total panics f h = h
  FlushesOr-implied total out_of_fuel f h = f h

  abbrev Enough : ℕ → ℕ → VecBufs Stream → Type 0
  Enough idle fuel s =
      (length (pending s) + 2 + idle ≤ fuel) ⊎ ((s.block ≡ length s.bufs) × (1 ≤ fuel))

  after_write-Enough :
      (n idle fuel : ℕ) (s t : VecBufs Stream)
      → AdvancedBy n s t
      → n ≤ length (pending s)
      → (0 < length (pending s) → n ≢ 0)
      → length (pending s) + 2 + idle ≤ suc fuel
      → Enough idle fuel t
  after_write-Enough n idle fuel s t a le moved enough =
      let left : length (pending t) ≡ length (pending s) - n =
        ap length a.pending_is ∙ length-drop n (pending s) in
      elim (ℕ_discrete (length (pending s)) n) [
        | yes all ↦ elim (dec_lt 0 fuel) [
          | yes more ↦ inr (a.drained all, more)
          | no none_left ↦ absurd (omega arith)
        ]
        | no part ↦ inl (omega (arith, left, moved))
      ]

  abbrev Outcome : ℕ → VecBufs Stream → FlushResult writer → Type 0
  Outcome fuel s r =
      FlushesOr ((idle : ℕ) → Enough idle fuel s → Idles (suc idle) s)
        (written s.writer ++ pending s) r

  still_idle :
      (n fuel idle : ℕ) (s : VecBufs Stream)
      → AdvancedBy n
          (record s { writer = (write_vectored s.writer (cut s.pos (drop s.block s.bufs))).1 })
          (after_taking n s)
      → n ≡ 0
      → ((k : ℕ) → Enough k fuel (after_taking n s) → Idles (suc k) (after_taking n s))
      → length (pending s) + 2 + idle ≤ suc fuel
      → Idles idle (after_taking n s)
  still_idle n fuel zero s a none_taken spins enough = so_far
  still_idle n fuel (suc idle) s a none_taken spins enough =
      let left : length (pending (after_taking n s)) ≡ length (pending s) - n =
        ap length a.pending_is ∙ length-drop n (pending s) in
      spins idle (inl (omega (arith, left, none_taken, enough)))

  -- Behind a write of which the stream took `n` bytes.
  after_write-Idles :
      (n fuel idle : ℕ) (s : VecBufs Stream)
      → s.block < length s.bufs
      → (write_vectored s.writer (cut s.pos (drop s.block s.bufs))).0 ≡ ok n
      → AdvancedBy n
          (record s { writer = (write_vectored s.writer (cut s.pos (drop s.block s.bufs))).1 })
          (after_taking n s)
      → n ≤ length (pending s)
      → ((k : ℕ) → Enough k fuel (after_taking n s) → Idles (suc k) (after_taking n s))
      → Enough idle (suc fuel) s
      → Idles (suc idle) s
  after_write-Idles n fuel idle s open_ e a le spins (inr done) = absurd (omega (arith, done.0))
  after_write-Idles n fuel idle s open_ e a le spins (inl enough) =
      let goes_on : (0 < length (pending s) → n ≢ 0) → Idles (suc idle) s =
        λ moved. took e (spins idle (after_write-Enough n idle fuel _ _ a le moved enough)) in
      elim (ℕ_discrete n 0) [
        | no moved ↦ goes_on (λ _. moved)
        | yes none_taken ↦ elim (dec_lt 0 (length (pending s))) [
          | yes some_left ↦ took_none some_left (e ∙ ap ok none_taken) (
              subst (λ m. Idles idle (after_taking m s)) none_taken
                (still_idle n fuel idle s a none_taken spins enough))
          | no none_left ↦ goes_on (λ some_left. absurd (none_left some_left))
        ]
      ]

  after_write-Flushes :
      (continue : VecBufs Stream → FlushResult writer) (fuel : ℕ) (s : VecBufs Stream)
      → IsValid s
      → s.block < length s.bufs
      → ((t : VecBufs Stream) → IsValid t → t.bufs ≡ s.bufs → Outcome fuel t (continue t))
      → (r : Result E ℕ) → (write_vectored s.writer (cut s.pos (drop s.block s.bufs))).0 ≡ r
      → Outcome (suc fuel) s (
          after_write writer continue r
            (record s { writer = (write_vectored s.writer (cut s.pos (drop s.block s.bufs))).1 }))
  unfolding after_write
  after_write-Flushes continue fuel s v open_ ih (ok n) e =
      let p = pending s in
      let w = (write_vectored s.writer (cut s.pos (drop s.block s.bufs))).1 in
      let (le, taken) = takes_prefix s.writer _ n e in
      let s' : VecBufs Stream = record s { writer = w } in
      let t = advance n s' in
      let a : AdvancedBy n s' t = advance_by n s' (with_writer v w) le in
      let same : written t.writer ++ pending t ≡ written s.writer ++ p =
        rw (a.same_writer, a.pending_is, taken)
          (append_assoc (written s.writer) (take n p) (drop n p)
            ∙ ap (◌++◌ (written s.writer)) (take-append-drop n p)) in
      FlushesOr-implied (written s.writer ++ p) (continue t)
        (λ spins idle enough. after_write-Idles n fuel idle s open_ e a le spins enough)
        (subst
          (λ total.
            FlushesOr ((idle : ℕ) → Enough idle fuel t → Idles (suc idle) t) total (continue t))
          same (ih t a.valid a.same_bufs))
  after_write-Flushes continue fuel s v open_ ih (err x) e = (
    record { valid = with_writer v _; busy = λ full. absurd (omega arith) },
    rw (error_takes_nothing s.writer _ x e),
  )

  flush_loop-Flushes :
      (fuel len : ℕ) (s : VecBufs Stream)
      → IsValid s
      → len ≡ length s.bufs
      → Outcome fuel s (flush_loop writer fuel len s)
  unfolding flush_loop
  flush_loop-Flushes zero len s v l = λ idle enough. absurd (omega (arith, enough))
  flush_loop-Flushes (suc fuel) len s v l = elim (Bool-cases (ltb s.block len)) [
    | inl more ↦
        rw (more, flush_loop)
          (let range : slice_range s.io_slice s.block (len - s.block)
                ≡ cut s.pos (drop s.block s.bufs) =
              ap (slice_range s.io_slice s.block) (omega (arith, length-drop s.block s.bufs))
              ∙ v.slices in
            rw range (
              after_write-Flushes (flush_loop writer fuel len) fuel s v (ground arith)
                (λ t valid same. flush_loop-Flushes fuel len t valid (l ∙ sym (ap length same))) _
                refl))
    | inr done ↦
        rw (done, flush_loop)
          (
            sym (
                ap (◌++◌ (written s.writer)) (pending-done s (ground (arith, v.block_le)))
                ∙ append-nil _),
            refl,
            refl,
            refl,
          )
  ]

  all_sent :
      (s : VecBufs Stream)
      → IsReady s
      → s.block ≡ length s.bufs
      → (idle : ℕ) → Flushes idle (written s.writer ++ pending s) (returns (ok tt, s))
  all_sent s ready e idle =
      let none_left : s.bufs ≡ [] = ready.busy e in
      (
        sym (ap (◌++◌ (written s.writer)) (pending-done s e) ∙ append-nil _),
        none_left,
        omega (arith, e, ap length none_left),
        subst (Fits s.pos) (ap (λ b. drop b s.bufs) e ∙ drop-length s.bufs) ready.valid.fits,
      )

  -- From a ready buffer, with fuel for the unsent bytes and `idle` more rounds: if `flush` returns `Ok`, the stream has taken
  -- all unsent bytes in order and nothing is left. If it returns an error, what the stream took and
  -- what is still unsent are together what they were, and the buffer is ready. It does not panic, and
  -- it lacks fuel only if the stream has answered unsent bytes more than `idle` times by `Ok(0)`.
  pub flush-Flushes :
      (idle fuel : ℕ) (s : VecBufs Stream)
      → IsReady s
      → length (pending s) + 2 + idle ≤ fuel
      → Flushes idle (written s.writer ++ pending s) (flush writer fuel s)
  unfolding flush
  flush-Flushes idle fuel s ready enough = elim (Bool-cases (s.block == length s.bufs)) [
    | inl full ↦ rw full (all_sent s ready (ground arith) idle)
    | inr open_ ↦ rw open_ (
        FlushesOr-implied {P = (k : ℕ) → Enough k fuel s → Idles (suc k) s}
          (written s.writer ++ pending s) (flush_loop writer fuel (length s.bufs) s)
          (λ spins. record {
            start = s;
            valid = ready.valid;
            total_is = refl;
            idles = spins idle (inl enough);
          })
          (flush_loop-Flushes fuel (length s.bufs) s ready.valid refl))
  ]

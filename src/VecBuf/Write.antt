-- ===== src/VecBuf/Write.antt =====
-- `write_bytes` of src/vec_buf.rs.
use may_postgres.Base.{
  ℕ, zero, suc, ◌+◌, ◌≤◌, ◌<◌, List, [], ◌∷◌, ◌++◌, ◌≡◌, refl, ap, ◌∙◌, inl, inr, Bool-cases, ◌==◌,
  lt→ltb, arith, length, drop, length-append, length-drop, drop-append, concat-append, append-nil,
  Bytes, ok, err, returns, panics, out_of_fuel,
}
use may_postgres.VecBuf.{
  Writer, max_vec_buf, VecBufs, set_slice, slice_range, FlushResult, write_bytes,
}
use may_postgres.VecBuf.Advance.{cut, Fits}
use may_postgres.VecBuf.Pending.{pending, IsValid, IsReady}
use may_postgres.VecBuf.Flush.{Stalled, Flushes, flush-Flushes}

slice_range-set_end :
    (slices : ℕ → Bytes) (i from count : ℕ) (v : Bytes)
    → i ≡ from + count
    → slice_range (set_slice slices i v) from (suc count) ≡ slice_range slices from count ++ v ∷ []
slice_range-set_end slices i from zero v e = ground arith
slice_range-set_end slices i from (suc count) v e =
    ground (arith, slice_range-set_end slices i (suc from) count v)

cut-append :
    (pos : ℕ) (bufs : List Bytes) (buf : Bytes)
    → Fits pos bufs
    → cut pos (bufs ++ buf ∷ []) ≡ cut pos bufs ++ buf ∷ []
cut-append pos [] buf fits = rw fits
cut-append pos (x ∷ xs) buf fits = refl

Fits-append :
    (pos : ℕ) (bufs : List Bytes) (buf : Bytes) → Fits pos bufs → Fits pos (bufs ++ buf ∷ [])
Fits-append pos [] buf fits = omega arith
Fits-append pos (x ∷ xs) buf fits = fits

module _ {W : Type 0} where
  -- `bufs.push(buf); io_slice[len] = slice`
  abbrev pushed : VecBufs W → Bytes → VecBufs W
  pushed s buf = record s {
    bufs = s.bufs ++ buf ∷ [];
    io_slice = set_slice s.io_slice (length s.bufs) buf;
  }

  drop-pushed :
      (s : VecBufs W) (buf : Bytes)
      → s.block ≤ length s.bufs
      → drop s.block (s.bufs ++ buf ∷ []) ≡ drop s.block s.bufs ++ buf ∷ []
  drop-pushed s buf le = drop-append s.block s.bufs (buf ∷ []) le

  pushed-IsReady : (s : VecBufs W) (buf : Bytes) → IsValid s → IsReady (pushed s buf)
  pushed-IsReady s buf v = record {
    valid = record {
      block_le = omega (arith, v.block_le, length-append s.bufs (buf ∷ []));
      fits = rw (drop-pushed s buf v.block_le) (Fits-append s.pos _ buf v.fits);
      slices =
          rw (drop-pushed s buf v.block_le, cut-append s.pos (drop s.block s.bufs) buf v.fits)
            (ap (slice_range _ s.block) {y = suc (length (drop s.block s.bufs))}
                (omega (arith, length-append (drop s.block s.bufs) (buf ∷ [])))
              ∙ slice_range-set_end s.io_slice (length s.bufs) s.block
                  (length (drop s.block s.bufs)) buf
                  (omega (arith, v.block_le, length-drop s.block s.bufs))
              ∙ ap (λ l. l ++ buf ∷ []) v.slices);
    };
    busy = λ e. absurd (omega (arith, e, v.block_le, length-append s.bufs (buf ∷ [])));
  }

  pending-pushed :
      (s : VecBufs W) (buf : Bytes) → IsValid s → pending (pushed s buf) ≡ pending s ++ buf
  pending-pushed s buf v =
      rw (drop-pushed s buf v.block_le, cut-append s.pos (drop s.block s.bufs) buf v.fits)
        (concat-append (cut s.pos (drop s.block s.bufs)) (buf ∷ [])
          ∙ ap (◌++◌ (pending s)) (append-nil buf))

module _ {E : Type 0} (writer : Writer E) where
  open writer use {Stream, written}

  -- How a write may end when `total` is all that was handed over: nothing of it is lost or
  -- reordered, and after `Ok` there is room for the next buffer. More than
  -- `idle` answers `Ok(0)` to unsent bytes may keep it from its end.
  abbrev pub Accepts : ℕ → Bytes → FlushResult writer → Type 0
  Accepts idle total (returns (ok _, t)) =
      IsReady t × (length t.bufs < max_vec_buf) × (written t.writer ++ pending t ≡ total)
  Accepts idle total (returns (err _, t)) = IsReady t × (written t.writer ++ pending t ≡ total)
  Accepts idle total panics = ⊥
  Accepts idle total out_of_fuel = Stalled writer idle total

  pub empty-IsReady :
      (t : VecBufs Stream) → t.bufs ≡ [] → t.block ≡ 0 → t.pos ≡ 0 → IsReady t × (pending t ≡ [])
  empty-IsReady t b k p =
      let none_left : drop t.block t.bufs ≡ [] = rw (k, b) refl in
      (
        record {
          valid = record {
            block_le = omega (arith, ap length b);
            fits = rw none_left p;
            slices = rw none_left refl;
          };
          busy = λ _. b;
        },
        rw none_left refl,
      )

  Accepts-Flushes :
      (idle : ℕ) (total : Bytes) (r : FlushResult writer)
      → Flushes writer idle total r
      → Accepts idle total r
  Accepts-Flushes idle total (returns (ok _, t)) (w, b, k, p) =
      let (ready, none_left) = empty-IsReady t b k p in
      (ready, omega (arith, ap length b), rw (none_left, w) (append-nil total))
  Accepts-Flushes idle total (returns (err _, t)) h = h
  Accepts-Flushes idle total panics h = h
  Accepts-Flushes idle total out_of_fuel h = h

  -- A ready buffer with fewer than `MAX_VEC_BUF` entries accepts any bytes, given fuel for what is
  -- unsent and `idle` more rounds: there is no panic, whatever the stream took and what is unsent are the old bytes
  -- followed by the new ones, and after `Ok` there is room again. It lacks fuel only if the stream
  -- has answered unsent bytes more than `idle` times by `Ok(0)`.
  pub write_bytes-Accepts :
      (idle fuel : ℕ) (buf : Bytes) (s : VecBufs Stream)
      → IsReady s
      → length s.bufs < max_vec_buf
      → length (pending s) + length buf + 2 + idle ≤ fuel
      → Accepts idle (written s.writer ++ (pending s ++ buf)) (write_bytes writer fuel buf s)
  unfolding write_bytes
  write_bytes-Accepts idle fuel buf s ready room enough =
      let same : pending (pushed s buf) ≡ pending s ++ buf = pending-pushed s buf ready.valid in
      let ready' : IsReady (pushed s buf) = pushed-IsReady s buf ready.valid in
      rw (lt→ltb _ _ room) (elim (Bool-cases (length s.bufs + 1 == max_vec_buf)) [
        | inl full ↦ rw full (
            Accepts-Flushes idle _ _ (
              rw same at (
                flush-Flushes writer idle fuel (pushed s buf) ready'
                  (omega (arith, ap length same, length-append (pending s) buf)))))
        | inr more ↦ rw more (
          ready',
          ground (arith, length-append s.bufs (buf ∷ [])),
          ap (◌++◌ (written s.writer)) same,
        )
      ])

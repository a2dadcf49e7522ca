-- ===== src/VecBuf/Pending.antt =====
-- What is unsent in the buffer of src/vec_buf.rs, and what `advance` leaves of it.
use may_postgres.Base.{
  ℕ, ◌-◌, ◌≤◌, [], ◌≡◌, ap, ◌∙◌, arith, length, drop, concat, length-drop, drop-drop, drop-length,
  Bytes,
}
use may_postgres.VecBuf.{VecBufs, slice_range, advance}
use may_postgres.VecBuf.Advance.{cut, Fits, Advanced, advance_loop-Advanced}

module _ {W : Type 0} where
  -- The bytes that have been handed over and not yet been taken by the stream.
  abbrev pub pending : VecBufs W → Bytes
  pending s = concat (cut s.pos (drop s.block s.bufs))

  -- The slices from `block` on are the unsent data.
  pub record IsValid (s : VecBufs W) : Type 0 where
    pub block_le : s.block ≤ length s.bufs
    pub fits : Fits s.pos (drop s.block s.bufs)
    pub slices :
        slice_range s.io_slice s.block (length (drop s.block s.bufs))
        ≡ cut s.pos (drop s.block s.bufs)

  -- Between calls, moreover, sent buffers are gone or one is still to be sent.
  pub record IsReady (s : VecBufs W) : Type 0 where
    pub valid : IsValid s
    pub busy : s.block ≡ length s.bufs → s.bufs ≡ []

  pub pending-done : (s : VecBufs W) → s.block ≡ length s.bufs → pending s ≡ []
  pending-done s e = ap (λ b. concat (cut s.pos (drop b s.bufs))) e ∙ rw (drop-length s.bufs)

  pub with_writer : {s : VecBufs W} → IsValid s → (w : W) → IsValid (record s { writer = w })
  with_writer v w = record { block_le = v.block_le; fits = v.fits; slices = v.slices }

  pub record AdvancedBy (n : ℕ) (s t : VecBufs W) : Type 0 where
    pub valid : IsValid t
    pub pending_is : pending t ≡ drop n (pending s)
    pub drained : length (pending s) ≡ n → t.block ≡ length t.bufs
    pub same_bufs : t.bufs ≡ s.bufs
    pub same_writer : t.writer ≡ s.writer

  of_Advanced :
      (n : ℕ) (s t : VecBufs W)
      → IsValid s
      → Advanced (drop s.block s.bufs) n s t
      → AdvancedBy n s t
  of_Advanced n s t v a =
      let e : drop t.block t.bufs ≡ drop a.passed (drop s.block s.bufs) =
        cc (a.block_is, a.same_bufs, drop-drop s.block a.passed s.bufs) in
      let l : length (drop s.block s.bufs) ≡ length s.bufs - s.block = length-drop s.block s.bufs in
      record {
        valid = record {
          block_le = omega (arith, a.passed_le, a.block_is, v.block_le, l, ap length a.same_bufs);
          fits = rw e a.fits;
          slices = rw e a.slices;
        };
        pending_is = rw e a.rest_is;
        drained = λ d. omega (arith, a.drained d, a.block_is, v.block_le, l, ap length a.same_bufs);
        same_bufs = a.same_bufs;
        same_writer = a.same_writer;
      }

  pub advance_by :
      (n : ℕ) (s : VecBufs W) → IsValid s → n ≤ length (pending s) → AdvancedBy n s (advance n s)
  unfolding advance
  advance_by n s v le =
      of_Advanced n s _ v (advance_loop-Advanced (drop s.block s.bufs) n s v.fits v.slices le)

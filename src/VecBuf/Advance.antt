-- ===== src/VecBuf/Advance.antt =====
-- `advance` of src/vec_buf.rs: the unsent data, and what advancing past a partial write leaves.
use may_postgres.Base.{
  ℕ, zero, suc, ◌+◌, ◌-◌, ◌≤◌, ◌<◌, List, [], ◌∷◌, ◌≡◌, refl, sym, ap, ◌∙◌, inl, inr, Bool-cases,
  leb, ==_refl, arith, length, drop, concat, length-append, length-drop, drop-drop, drop-append,
  drop-append_ge, Bytes,
}
use may_postgres.VecBuf.{VecBufs, set_slice, slice_range, advance_loop}

-- The buffers that are left when the first `pos` bytes of the first one are gone.
abbrev pub cut : ℕ → List Bytes → List Bytes
cut pos [] = []
cut pos (buf ∷ rest) = drop pos buf ∷ rest

abbrev pub Fits : ℕ → List Bytes → Type 0
Fits pos [] = pos ≡ 0
Fits pos (buf ∷ rest) = pos ≤ length buf

pub cut-zero : (bufs : List Bytes) → cut 0 bufs ≡ bufs
cut-zero [] = refl
cut-zero (buf ∷ rest) = refl

Fits-zero : (bufs : List Bytes) → Fits 0 bufs
Fits-zero [] = refl
Fits-zero (buf ∷ rest) = omega arith

-- A write below the range changes no slice of it.
pub slice_range-set_below :
    (slices : ℕ → Bytes) (i from count : ℕ) (v : Bytes)
    → i < from
    → slice_range (set_slice slices i v) from count ≡ slice_range slices from count
slice_range-set_below slices i from zero v h = refl
slice_range-set_below slices i from (suc count) v h =
    ground (arith, slice_range-set_below slices i (suc from) count v)

abbrev tail : List Bytes → List Bytes
tail [] = []
tail (x ∷ xs) = xs

-- What `advance_loop` makes of the buffers `bufs` that begin at `s.block`.
pub record Advanced {W : Type 0} (bufs : List Bytes) (left : ℕ) (s t : VecBufs W) : Type 0 where
  pub passed : ℕ
  pub passed_le : passed ≤ length bufs
  pub block_is : t.block ≡ s.block + passed
  pub fits : Fits t.pos (drop passed bufs)
  pub slices :
      slice_range t.io_slice t.block (length (drop passed bufs)) ≡ cut t.pos (drop passed bufs)
  pub rest_is : concat (cut t.pos (drop passed bufs)) ≡ drop left (concat (cut s.pos bufs))
  pub drained : length (concat (cut s.pos bufs)) ≡ left → passed ≡ length bufs
  pub same_bufs : t.bufs ≡ s.bufs
  pub same_writer : t.writer ≡ s.writer

module _ {W : Type 0} where
  -- The buffer at `block` is passed whole.
  pass :
      (buf : Bytes) (rest : List Bytes) (left : ℕ) (s t : VecBufs W)
      → s.pos ≤ length buf
      → length buf - s.pos ≤ left
      → Advanced rest (left - (length buf - s.pos)) (record s { block = s.block + 1; pos = 0 }) t
      → Advanced (buf ∷ rest) left s t
  pass buf rest left s t fits le a = record {
    passed = suc a.passed;
    passed_le = omega (arith, a.passed_le);
    block_is = omega (arith, a.block_is);
    fits = a.fits;
    slices = a.slices;
    rest_is =
        a.rest_is
        ∙ rw (cut-zero rest) (
            rw
              (drop-append_ge left (drop s.pos buf) (concat rest)
                (omega (arith, length-drop s.pos buf)))
              (rw (length-drop s.pos buf)));
    drained = λ e. ap suc (
        a.drained (
          rw (cut-zero rest) (
            omega
              (arith, e, length-append (drop s.pos buf) (concat rest), length-drop s.pos buf))));
    same_bufs = a.same_bufs;
    same_writer = a.same_writer;
  }

  -- The write ended inside the buffer at `block`.
  stop :
      (buf : Bytes) (rest : List Bytes) (left : ℕ) (s : VecBufs W)
      → s.pos ≤ length buf
      → left < length buf - s.pos
      → slice_range s.io_slice s.block (suc (length rest)) ≡ drop s.pos buf ∷ rest
      → Advanced (buf ∷ rest) left s (record s {
        pos = s.pos + left;
        io_slice = set_slice s.io_slice s.block (drop (s.pos + left) buf);
      })
  stop buf rest left s fits lt slices = record {
    passed = 0;
    passed_le = omega arith;
    block_is = omega arith;
    fits = omega arith;
    slices =
        let below = slice_range-set_below s.io_slice s.block (suc s.block) (length rest) in
        rw (==_refl s.block)
          (ap (◌∷◌ (drop (s.pos + left) buf)) (below _ (omega arith) ∙ ap tail slices));
    rest_is = sym (
        drop-append left (drop s.pos buf) (concat rest) (omega (arith, length-drop s.pos buf))
        ∙ rw (drop-drop s.pos left buf));
    drained = λ e.
        absurd
          (omega (arith, e, length-append (drop s.pos buf) (concat rest), length-drop s.pos buf));
    same_bufs = refl;
    same_writer = refl;
  }

  pub advance_loop-Advanced :
      (bufs : List Bytes) (left : ℕ) (s : VecBufs W)
      → Fits s.pos bufs
      → slice_range s.io_slice s.block (length bufs) ≡ cut s.pos bufs
      → left ≤ length (concat (cut s.pos bufs))
      → Advanced bufs left s (advance_loop bufs left s)
  unfolding advance_loop
  advance_loop-Advanced [] left s fits slices le = record {
    passed = 0;
    passed_le = omega arith;
    block_is = omega arith;
    fits = fits;
    slices = refl;
    rest_is = let e : left ≡ 0 = omega arith in rw e;
    drained = λ _. refl;
    same_bufs = refl;
    same_writer = refl;
  }
  advance_loop-Advanced (buf ∷ rest) left s fits slices le =
      elim (Bool-cases (leb (length buf - s.pos) left)) [
        | inl whole ↦ rw whole (
            pass buf rest left s _ fits (ground arith) (
              advance_loop-Advanced rest (left - (length buf - s.pos)) _ (Fits-zero rest)
                (let e : s.block + 1 ≡ suc s.block = omega arith in
                  rw (e, cut-zero rest) (ap tail slices))
                (rw (cut-zero rest) (
                  omega
                    (arith, length-append (drop s.pos buf) (concat rest), length-drop s.pos buf)))))
        | inr part ↦ rw part (stop buf rest left s fits (ground arith) slices)
      ]

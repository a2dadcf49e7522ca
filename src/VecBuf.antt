-- ===== src/VecBuf.antt =====
-- src/vec_buf.rs: buffers collected for vectored writes. The model's functions; what they keep is
-- proved in the modules below.
pub mod Advance
pub mod Pending
pub mod Flush
pub mod Write
use may_postgres.Base.{
  ℕ, zero, suc, ◌+◌, ◌-◌, ◌≤◌, Bool, true, false, List, [], ◌∷◌, ◌++◌, ◌≡◌, ltb, leb, ◌==◌,
  if◌then◌else◌, length, take, drop, concat, Bytes, Result, ok, err, Run, returns, panics,
  out_of_fuel,
}

-- `std::io::Write`, as far as `flush` relies on it. `written` is the data accepted so far.
pub record Writer (E : Type 0) : Type 1 where
  pub Stream : Type 0
  pub write_vectored : Stream → List Bytes → Result E ℕ × Stream
  pub written : Stream → Bytes
  -- `Ok(n)`: the first n bytes of the slices, in order, were taken.
  pub takes_prefix :
      (w : Stream) (slices : List Bytes) (n : ℕ)
      → (write_vectored w slices).0 ≡ ok n
      → (n ≤ length (concat slices))
        × (written (write_vectored w slices).1 ≡ written w ++ take n (concat slices))
  -- `Err`: none of the data was taken.
  pub error_takes_nothing :
      (w : Stream) (slices : List Bytes) (e : E)
      → (write_vectored w slices).0 ≡ err e
      → written (write_vectored w slices).1 ≡ written w

abbrev pub max_vec_buf : ℕ
max_vec_buf = 128

-- `io_slice` is the array of `IoSlice`; an entry that was never set is arbitrary.
pub record VecBufs (W : Type 0) : Type 0 where
  pub block : ℕ
  pub pos : ℕ
  pub bufs : List Bytes
  pub io_slice : ℕ → Bytes
  pub writer : W

-- `uninit` is what the uninitialised array holds.
pub new : {W : Type 0} → (ℕ → Bytes) → W → VecBufs W
new uninit w = record { block = 0; pos = 0; bufs = []; io_slice = uninit; writer = w }

-- `io_slice[i] = slice`
abbrev pub set_slice : (ℕ → Bytes) → ℕ → Bytes → ℕ → Bytes
set_slice slices i slice j = if j == i then slice else slices j

-- `&io_slice[from..from + count]`
abbrev pub slice_range : (ℕ → Bytes) → ℕ → ℕ → List Bytes
slice_range slices from zero = []
slice_range slices from (suc count) = slices from ∷ slice_range slices (suc from) count

module _ {W : Type 0} where
  -- The `for` of `advance`, over `bufs[block..]`; `pos` stays within the buffer at `block`.
  unfoldable pub advance_loop : List Bytes → ℕ → VecBufs W → VecBufs W
  advance_loop [] left s = s
  advance_loop (buf ∷ rest) left s =
      let len = length buf - s.pos in
      if leb len left
      then advance_loop rest (left - len) (record s { block = s.block + 1; pos = 0 })
      else record s {
        pos = s.pos + left;
        io_slice = set_slice s.io_slice s.block (drop (s.pos + left) buf);
      }

  unfoldable pub advance : ℕ → VecBufs W → VecBufs W
  advance n s = advance_loop (drop s.block s.bufs) n s

  abbrev pub cleared : VecBufs W → VecBufs W
  cleared s = record s { bufs = []; block = 0; pos = 0 }

module _ {E : Type 0} (writer : Writer E) where
  open writer use {Stream, write_vectored}

  abbrev pub FlushResult : Type 0
  FlushResult = Run (Result E Unit × VecBufs Stream)

  -- `let n = ...?; self.advance(n);` and the rest of the loop
  unfoldable pub after_write :
      (VecBufs Stream → FlushResult) → Result E ℕ → VecBufs Stream → FlushResult
  after_write continue (ok n) s = continue (advance n s)
  after_write continue (err e) s = returns (err e, s)

  -- `while self.block < len`, on fuel
  unfoldable pub flush_loop : ℕ → ℕ → VecBufs Stream → FlushResult
  flush_loop zero len s = out_of_fuel
  flush_loop (suc fuel) len s = elim (ltb s.block len) [
    | true ↦
        let (r, w) = write_vectored s.writer (slice_range s.io_slice s.block (len - s.block)) in
        after_write (flush_loop fuel len) r (record s { writer = w })
    | false ↦ returns (ok tt, cleared s)
  ]

  unfoldable pub flush : ℕ → VecBufs Stream → FlushResult
  flush fuel s =
      let len = length s.bufs in
      if s.block == len then returns (ok tt, s) else flush_loop fuel len s

  -- The assertion is a panic.
  unfoldable pub write_bytes : ℕ → Bytes → VecBufs Stream → FlushResult
  write_bytes fuel buf s =
      let len = length s.bufs in
      if ltb len max_vec_buf
      then (let s' = record s {
        bufs = s.bufs ++ buf ∷ [];
        io_slice = set_slice s.io_slice len buf;
      } in
          if len + 1 == max_vec_buf then flush fuel s' else returns (ok tt, s'))
      else panics

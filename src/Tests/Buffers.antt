-- ===== src/Tests/Buffers.antt =====
-- src/vec_buf.rs on a stream that takes at most three bytes of each write.
use may_postgres.Base.{
  ℕ, ◌≤◌, ◌<◌, List, [], ◌∷◌, ◌++◌, ◌≡◌, refl, sym, ap, ◌∙◌, arith, if◌then◌else◌, ◌==◌, length,
  take, concat, Bytes, Result, ok, err, returns, out_of_fuel, append-nil,
}
use may_postgres.Protocol.{IoError}
use may_postgres.VecBuf.{
  Writer, VecBufs, advance, advance_loop, after_write, flush_loop, flush, write_bytes,
}
use may_postgres.VecBuf.Pending.{IsReady}
use may_postgres.VecBuf.Flush.{Flushes, flush-Flushes}
use may_postgres.VecBuf.Write.{Accepts, write_bytes-Accepts}

-- The stream is the bytes that it took.
abbrev pub take_three : Bytes → List Bytes → Result IoError ℕ × Bytes
take_three w slices = (ok (length (take 3 (concat slices))), w ++ take 3 (concat slices))

take_three-le : (bs : Bytes) → length (take 3 bs) ≤ length bs
take_three-le [] = omega arith
take_three-le (a ∷ []) = omega arith
take_three-le (a ∷ b ∷ []) = omega arith
take_three-le (a ∷ b ∷ c ∷ bs) = omega arith

take_three-take : (bs : Bytes) → take (length (take 3 bs)) bs ≡ take 3 bs
take_three-take [] = refl
take_three-take (a ∷ []) = refl
take_three-take (a ∷ b ∷ []) = refl
take_three-take (a ∷ b ∷ c ∷ bs) = refl

take_three-pos : (bs : Bytes) → 0 < length bs → 0 < length (take 3 bs)
take_three-pos [] h = h
take_three-pos (a ∷ []) h = omega arith
take_three-pos (a ∷ b ∷ bs) h = omega arith

pub takes :
    (w : Bytes) (slices : List Bytes) (n : ℕ)
    → (take_three w slices).0 ≡ ok n
    → (n ≤ length (concat slices)) × ((take_three w slices).1 ≡ w ++ take n (concat slices))
takes w slices n e =
    let l : length (take 3 (concat slices)) ≡ n = ground arith in
    (
      omega (arith, l, take_three-le (concat slices)),
      ap (◌++◌ w) (sym (take_three-take (concat slices)) ∙ ap (λ k. take k (concat slices)) l),
    )

pub no_error :
    (w : Bytes) (slices : List Bytes) (e : IoError)
    → (take_three w slices).0 ≡ err e
    → (take_three w slices).1 ≡ w
no_error w slices e h = absurd (ground arith)

abbrev pub slow : Writer IoError
slow = record {
  Stream = Bytes;
  write_vectored = take_three;
  written = λ w. w;
  takes_prefix = takes;
  error_takes_nothing = no_error;
}

abbrev hello : Bytes
hello = 104 ∷ 101 ∷ 108 ∷ 108 ∷ 111 ∷ []

abbrev uninit : ℕ → Bytes
uninit i = 0 ∷ []

-- One buffer of five bytes, of which the stream has taken none, behind an empty one.
abbrev two_buffers : VecBufs Bytes
two_buffers = record {
  block = 0;
  pos = 0;
  bufs = [] ∷ hello ∷ [];
  io_slice = λ i. if i == 0 then [] else hello;
  writer = [];
}

two_buffers-IsReady : IsReady two_buffers
two_buffers-IsReady = record {
  valid = record { block_le = omega arith; fits = omega arith; slices = refl };
  busy = λ e. absurd (omega (arith, e));
}

flushes_in_two_writes :
    flush slow 7 two_buffers
    ≡ returns (
      ok tt,
      record two_buffers { bufs = []; io_slice = (advance 3 two_buffers).io_slice; writer = hello },
    )
unfolding flush flush_loop after_write advance advance_loop
flushes_in_two_writes = refl

flush-Flushes_example : Flushes slow 0 hello (flush slow 7 two_buffers)
flush-Flushes_example = flush-Flushes slow 0 7 two_buffers two_buffers-IsReady (omega arith)

write_bytes-Accepts_example :
    Accepts slow 0 (hello ++ hello) (write_bytes slow 12 hello two_buffers)
write_bytes-Accepts_example =
    write_bytes-Accepts slow 0 12 hello two_buffers two_buffers-IsReady (omega arith) (omega arith)

-- A stream that takes nothing.
abbrev takes_none : Result IoError ℕ
takes_none = ok 0

full_takes :
    (w : Bytes) (slices : List Bytes) (n : ℕ)
    → takes_none ≡ ok n
    → (n ≤ length (concat slices)) × (w ≡ w ++ take n (concat slices))
full_takes w slices n e =
    let none_taken : 0 ≡ n = ground (arith, e) in
    (
      omega (arith, none_taken),
      sym (append-nil w) ∙ ap (λ k. w ++ take k (concat slices)) none_taken,
    )

abbrev full : Writer IoError
full = record {
  Stream = Bytes;
  write_vectored = λ w slices. (takes_none, w);
  written = λ w. w;
  takes_prefix = full_takes;
  error_takes_nothing = λ w slices e h. absurd (ground (arith, h));
}

spins_on_full : flush full 7 two_buffers ≡ out_of_fuel
unfolding flush flush_loop after_write advance advance_loop
spins_on_full = refl

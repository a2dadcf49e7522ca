-- ===== src/Codec/Complete.antt =====
-- `decode` of src/codec.rs: it always returns, and it finds a complete batch whatever follows it.
use may_postgres.Base.{
  ℕ, zero, suc, ◌+◌, ◌-◌, ◌≤◌, ◌<◌, Bool, true, false, [], ◌++◌, ◌≡◌, ◌≢◌, refl, sym, ap, ◌∙◌,
  Option, none, some, inl, inr, Bool-cases, ltb, ltb→le, le→ltb, arith, length, drop, drop-prefix,
  take-prefix, length-append, length-drop, append_assoc, Bytes, Result, ok, err, Run, returns,
  panics, out_of_fuel, ◌==◌, if◌then◌else◌,
}
use mathlib.Core.Path.{subst}
use may_postgres.Protocol.{IoError, Message, Header, Protocol, IsProtocol, ready_for_query_tag}
use may_postgres.Codec.{
  normal, Decoded, is_async_tag, finish, take_async, on_header, on_parsed, decode_loop, decode,
}
use may_postgres.Codec.Frames.{IsFrame, Batch, nil, last, cons, parse_header-frame}

abbrev pub Returns {ℓ} : {A : Type ℓ} → Run A → Type 0
Returns (returns _) = Unit
Returns panics = ⊥
Returns out_of_fuel = ⊥

finish-Returns : (src : Bytes) (idx : ℕ) (b : Bool) → Returns (finish src idx b)
unfolding finish
finish-Returns src idx b = ground arith

module _ (p : Protocol) (laws : IsProtocol p) (src : Bytes) where
  take_async-Returns :
      (r : Result IoError (Option (Message × Bytes)))
      → r ≢ ok none
      → Returns (take_async (p.behind_error src) r)
  unfolding take_async
  take_async-Returns (ok none) h = absurd (h refl)
  take_async-Returns (ok (some (m, rest))) h = tt
  take_async-Returns (err e) h = tt

  -- A round that goes on has passed at least one byte of the buffer.
  module _ (continue : ℕ → Decoded) (idx : ℕ)
      (ih : (next : ℕ) → idx < next → next ≤ length src → Returns (continue next)) where
    on_header-Returns :
        (h : Header)
        → p.parse_header (drop idx src) ≡ ok (some h)
        → idx ≤ length src
        → Returns (on_header p continue src idx h)
    unfolding on_header
    on_header-Returns h parsed le = elim (Bool-cases (ltb (length (drop idx src)) (h.len + 1))) [
      | inl short ↦ rw short (finish-Returns src idx false)
      | inr long ↦ elim (Bool-cases (is_async_tag h.tag)) [
        | inl is_async ↦ elim (Bool-cases (idx == 0)) [
          | inl first ↦
              rw (long, is_async, first)
                (take_async-Returns _ (
                  let start : drop idx src ≡ src = ap (λ i. drop i src) {y = 0} (ground arith) in
                  laws.message_whole src h (ap p.parse_header (sym start) ∙ parsed)
                    (rw start at (ltb→le (length (drop idx src)) (h.len + 1) long))))
          | inr later ↦ rw (long, is_async, later) (finish-Returns src idx false)
        ]
        | inr sync ↦ elim (Bool-cases (h.tag == ready_for_query_tag)) [
          | inl ready ↦ rw (long, sync, ready) (finish-Returns src _ true)
          | inr more ↦
              rw (long, sync, more) (ih _ (omega arith) (ground (arith, length-drop idx src)))
        ]
      ]
    ]

    on_parsed-Returns :
        (r : Result IoError (Option Header))
        → p.parse_header (drop idx src) ≡ r
        → idx ≤ length src
        → Returns (on_parsed p continue src idx r)
    unfolding on_parsed
    on_parsed-Returns (err e) parsed le = tt
    on_parsed-Returns (ok none) parsed le = finish-Returns src idx false
    on_parsed-Returns (ok (some h)) parsed le = on_header-Returns h parsed le

  decode_loop-Returns :
      (fuel idx : ℕ)
      → idx ≤ length src
      → length src - idx < fuel
      → Returns (decode_loop p fuel src idx)
  unfolding decode_loop
  decode_loop-Returns zero idx le lt = absurd (omega arith)
  decode_loop-Returns (suc fuel) idx le lt =
      on_parsed-Returns (decode_loop p fuel src) idx
        (λ next more le'. decode_loop-Returns fuel next le' (omega arith)) _ refl le

-- `decode` returns on every buffer: it neither panics nor loops, and its fuel is enough.
pub decode-Returns : (p : Protocol) → IsProtocol p → (src : Bytes) → Returns (decode p src)
unfolding decode
decode-Returns p laws src =
    decode_loop-Returns p laws src (suc (length src)) 0 (omega arith) (omega arith)

pos→ne : (n : ℕ) → 0 < n → (n == 0) ≡ false
pos→ne n h = ground arith

module _ (p : Protocol) (laws : IsProtocol p) (src more : Bytes) where
  abbrev Completes : Bytes → Decoded → Type 0
  Completes ms d = d ≡ returns (ok (some (normal ms true)), more)

  module _ (pre f rest : Bytes) (h : Header) (frame : IsFrame p f h)
      (sync : is_async_tag h.tag ≡ false) (src_is : src ≡ pre ++ (f ++ rest)) where
    front_is : drop (length pre) src ≡ f ++ rest
    front_is = ap (drop (length pre)) src_is ∙ drop-prefix pre (f ++ rest)

    -- A round of the loop over the frame `f`.
    round :
        (fuel : ℕ)
        → decode_loop p (suc fuel) src (length pre) ≡ (
            if h.tag == ready_for_query_tag
            then finish src (length pre + (h.len + 1)) true
            else decode_loop p fuel src (length pre + (h.len + 1)))
    unfolding decode_loop on_parsed on_header
    round fuel =
        let parsed : p.parse_header (drop (length pre) src) ≡ ok (some h) =
          ap p.parse_header front_is ∙ parse_header-frame p laws f rest h frame in
        let long : ltb (length (drop (length pre) src)) (h.len + 1) ≡ false =
          le→ltb _ _ (rw front_is (omega (arith, frame.exact, length-append f rest))) in
        rw (parsed, on_parsed, long, sync) refl

  finish-all :
      (all : Bytes) (idx : ℕ)
      → src ≡ all ++ more
      → idx ≡ length all
      → 0 < idx
      → Completes all (finish src idx true)
  unfolding finish
  finish-all all idx src_is e pos =
      rw (src_is, e)
        (rw (take-prefix all more, drop-prefix all more, pos→ne (length all) (omega arith)) refl)

  decode_loop-Completes :
      (fuel : ℕ) (pre : Bytes) {ms : Bytes} {c : Bool}
      → Batch p ms c
      → c ≡ true
      → src ≡ pre ++ (ms ++ more)
      → length ms ≤ fuel
      → Completes (pre ++ ms) (decode_loop p fuel src (length pre))
  decode_loop-Completes fuel pre nil ct src_is enough = absurd (ground arith)
  decode_loop-Completes zero pre (last h frame sync ready) ct src_is enough =
      absurd (omega (arith, frame.exact))
  decode_loop-Completes (suc fuel) pre (last {f} h frame sync ready) ct src_is enough =
      rw (round pre f more h frame sync src_is fuel, ready)
        (finish-all (pre ++ f) _ (src_is ∙ sym (append_assoc pre f more))
          (omega (arith, frame.exact, length-append pre f)) (omega arith))
  decode_loop-Completes zero pre (cons {f} {rest} h frame sync other b all_is) ct src_is enough =
      absurd (omega (arith, frame.exact, ap length all_is, length-append f rest))
  decode_loop-Completes (suc fuel) pre (cons {f} {rest} h frame sync other b all_is) ct src_is
        enough =
      let src_is' : src ≡ pre ++ (f ++ (rest ++ more)) =
        src_is ∙ ap (λ l. pre ++ (l ++ more)) all_is ∙ ap (◌++◌ pre) (append_assoc f rest more) in
      rw (round pre f (rest ++ more) h frame sync src_is' fuel, other, all_is)
        (rw (← append_assoc pre f rest) (
          subst (λ idx. Completes ((pre ++ f) ++ rest) (decode_loop p fuel src idx))
            (length-append pre f ∙ ap (◌+◌ (length pre)) frame.exact)
            (decode_loop-Completes fuel (pre ++ f) b ct
              (src_is' ∙ sym (append_assoc pre f (rest ++ more)))
              (omega (arith, frame.exact, ap length all_is, length-append f rest)))))

-- A batch that ends the request is found whatever follows it in the buffer, and what follows is
-- left: how the bytes behind it arrive makes no difference.
pub decode_complete :
    (p : Protocol)
    → IsProtocol p
    → (ms more : Bytes) → Batch p ms true
    → decode p (ms ++ more) ≡ returns (ok (some (normal ms true)), more)
unfolding decode
decode_complete p laws ms more b =
    decode_loop-Completes p laws (ms ++ more) more (suc (length (ms ++ more))) [] b refl refl
      (omega (arith, length-append ms more))

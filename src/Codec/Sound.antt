-- ===== src/Codec/Sound.antt =====
-- `decode` of src/codec.rs: what it hands on is a batch off the front of the buffer.
use may_postgres.Base.{
  ℕ, zero, suc, ◌+◌, ◌≤◌, Bool, true, false, [], ◌++◌, ◌≡◌, refl, sym, ap, ◌∙◌, Option, none, some,
  inl, inr, Bool-cases, ltb, arith, length, take, drop, take-add, drop-drop, take-append-drop,
  append-nil, append_assoc, Bytes, Result, ok, err, returns, ◌==◌, if◌then◌else◌,
}
use may_postgres.Protocol.{IoError, Message, Header, Protocol, IsProtocol, ready_for_query_tag}
use may_postgres.Codec.{
  normal, Decoded, is_async_tag, finish, take_async, on_header, on_parsed, decode_loop, decode,
}
use may_postgres.Codec.Frames.{Batch, nil, last, cons, front-IsFrame}

finish-normal :
    (src : Bytes) (idx : ℕ) (b c : Bool) (ms rest : Bytes)
    → finish src idx b ≡ returns (ok (some (normal ms c)), rest)
    → (ms ≡ take idx src) × (rest ≡ drop idx src) × (c ≡ b)
unfolding finish
finish-normal src idx b c ms rest e = ground arith

take_async-ne-normal :
    (src : Bytes) (r : Result IoError (Option (Message × Bytes))) (c : Bool) (ms rest : Bytes)
    → ¬ (take_async src r ≡ returns (ok (some (normal ms c)), rest))
unfolding take_async
take_async-ne-normal src (ok none) c ms rest e = cc
take_async-ne-normal src (ok (some (m, r))) c ms rest e = ground arith
take_async-ne-normal src (err x) c ms rest e = ground arith

module _ (p : Protocol) (laws : IsProtocol p) (src ms rest : Bytes) (c : Bool) where
  -- From `idx` on, the loop has passed the batch `passed`.
  record Passes (idx : ℕ) : Type 0 where
    passed : Bytes
    ms_is : ms ≡ take idx src ++ passed
    src_is : drop idx src ≡ passed ++ rest
    batch : Batch p passed c

  abbrev IsNormal : Decoded → Type 0
  IsNormal d = d ≡ returns (ok (some (normal ms c)), rest)

  stops : (idx : ℕ) → IsNormal (finish src idx false) → Passes idx
  stops idx e =
      let (m, r, b) = finish-normal src idx false c ms rest e in
      record { passed = []; ms_is = m ∙ sym (append-nil _); src_is = sym r; batch = rw b nil }

  module _ (continue : ℕ → Decoded) (ih : (idx : ℕ) → IsNormal (continue idx) → Passes idx) where
    module _ (idx : ℕ) (h : Header) (parsed : p.parse_header (drop idx src) ≡ ok (some h)) where
      front_split : drop idx src ≡ take (h.len + 1) (drop idx src) ++ drop (idx + (h.len + 1)) src
      front_split =
          sym (take-append-drop (h.len + 1) (drop idx src))
          ∙ ap (◌++◌ (take (h.len + 1) (drop idx src))) (drop-drop idx (h.len + 1) src)

      module _ (le : h.len + 1 ≤ length (drop idx src)) (sync : is_async_tag h.tag ≡ false) where
        stops_behind :
            (h.tag == ready_for_query_tag) ≡ true
            → IsNormal (finish src (idx + (h.len + 1)) true)
            → Passes idx
        stops_behind ready e =
            let (m, r, b) = finish-normal src (idx + (h.len + 1)) true c ms rest e in
            record {
              passed = take (h.len + 1) (drop idx src);
              ms_is = m ∙ take-add idx (h.len + 1) src;
              src_is = front_split ∙ ap (◌++◌ (take (h.len + 1) (drop idx src))) (sym r);
              batch = rw b (last h (front-IsFrame p laws (drop idx src) h parsed le) sync ready);
            }

        goes_on : (h.tag == ready_for_query_tag) ≡ false → Passes (idx + (h.len + 1)) → Passes idx
        goes_on more a = record {
          passed = take (h.len + 1) (drop idx src) ++ a.passed;
          ms_is =
              a.ms_is
              ∙ ap (λ l. l ++ a.passed) (take-add idx (h.len + 1) src)
              ∙ append_assoc (take idx src) _ a.passed;
          src_is =
              front_split
              ∙ ap (◌++◌ (take (h.len + 1) (drop idx src))) a.src_is
              ∙ sym (append_assoc (take (h.len + 1) (drop idx src)) a.passed rest);
          batch = cons h (front-IsFrame p laws (drop idx src) h parsed le) sync more a.batch refl;
        }

        whole :
            IsNormal (
              if h.tag == ready_for_query_tag
              then finish src (idx + (h.len + 1)) true
              else continue (idx + (h.len + 1)))
            → Passes idx
        whole e = elim (Bool-cases (h.tag == ready_for_query_tag)) [
          | inl ready ↦ stops_behind ready (rw ready at e)
          | inr more ↦ goes_on more (ih (idx + (h.len + 1)) (rw more at e))
        ]

      on_header-Passes : IsNormal (on_header p continue src idx h) → Passes idx
      unfolding on_header
      on_header-Passes e = elim (Bool-cases (ltb (length (drop idx src)) (h.len + 1))) [
        | inl short ↦ stops idx (rw short at e)
        | inr long ↦ elim (Bool-cases (is_async_tag h.tag)) [
          | inl is_async ↦ elim (Bool-cases (idx == 0)) [
            | inl first ↦ absurd (
                take_async-ne-normal (p.behind_error src) _ c ms rest
                  (rw (long, is_async, first) at e))
            | inr later ↦ stops idx (rw (long, is_async, later) at e)
          ]
          | inr sync ↦ whole (ground arith) sync (rw (long, sync) at e)
        ]
      ]

    on_parsed-Passes :
        (idx : ℕ) (r : Result IoError (Option Header))
        → p.parse_header (drop idx src) ≡ r
        → IsNormal (on_parsed p continue src idx r)
        → Passes idx
    unfolding on_parsed
    on_parsed-Passes idx (err x) parsed e = absurd (ground arith)
    on_parsed-Passes idx (ok none) parsed e = stops idx e
    on_parsed-Passes idx (ok (some h)) parsed e = on_header-Passes idx h parsed e

  decode_loop-Passes : (fuel idx : ℕ) → IsNormal (decode_loop p fuel src idx) → Passes idx
  unfolding decode_loop
  decode_loop-Passes zero idx e = absurd (ground arith)
  decode_loop-Passes (suc fuel) idx e =
      on_parsed-Passes (decode_loop p fuel src) (decode_loop-Passes fuel) idx _ refl e

  -- A batch that `decode` returns is the front of the buffer, what is left is the rest of it, and
  -- the batch consists of whole frames with no asynchronous message, of which exactly the last is
  -- `ReadyForQuery` if the request is complete, and none if it is not.
  pub decode-Batch :
      decode p src ≡ returns (ok (some (normal ms c)), rest) → (src ≡ ms ++ rest) × Batch p ms c
  unfolding decode
  decode-Batch e =
      let a : Passes 0 = decode_loop-Passes (suc (length src)) 0 e in
      (a.src_is ∙ ap (λ b. b ++ rest) (sym a.ms_is), rw a.ms_is a.batch)

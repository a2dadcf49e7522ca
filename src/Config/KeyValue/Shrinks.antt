-- ===== src/Config/KeyValue/Shrinks.antt =====
-- What the operations of `Parser` in src/config.rs leave, and why its loop ends.
use may_postgres.Base.{
  ℕ, ◌+◌, ◌≤◌, ◌<◌, Bool, true, false, [], ◌∷◌, ◌++◌, ◌≡◌, refl, sym, ◌∙◌, ap, Option, none, some,
  ◌==◌, arith, inl, inr, Bool-cases, length, length-append, Text, is_whitespace, Result, ok, err,
  bind-eq-ok,
}
use may_postgres.Error.{Error}
use may_postgres.Config.KeyValue.{
  Parser, width, take_from, take_while, skip_ws, eat_from, eat, eat_if_from, eat_if,
  is_keyword_char, keyword, nonempty, simple_loop, or_eof, simple_value, cons_value, quoted_from,
  quoted_value, value_of, value, parameter_of, parameter,
}

pub take_from_lem :
    (f : ℕ → Bool) (n : ℕ) (s : Text) → (take_from f n s).0 ++ (take_from f n s).1.it ≡ s
unfolding take_from
take_from_lem f n [] = refl
take_from_lem f n (c ∷ cs) = elim (Bool-cases (f c)) [
  | inl e ↦ rw e (ap (◌∷◌ c) (take_from_lem f (n + width c) cs))
  | inr e ↦ rw e refl
]

pub length-take_from :
    (f : ℕ → Bool) (n : ℕ) (s : Text)
    → length (take_from f n s).0 + length (take_from f n s).1.it ≡ length s
length-take_from f n s =
    rw (← length-append (take_from f n s).0 (take_from f n s).1.it)
      (ap length (take_from_lem f n s))

eat_from-length :
    (target n : ℕ) (s : Text) (p : Parser) → eat_from target n s ≡ ok p → length p.it < length s
unfolding eat_from
eat_from-length target n [] p e = absurd (ground arith)
eat_from-length target n (c ∷ cs) p e = ground arith

length-eat_if_from : (target n : ℕ) (s : Text) → length (eat_if_from target n s).1.it ≤ length s
unfolding eat_if_from
length-eat_if_from target n [] = omega arith
length-eat_if_from target n (c ∷ cs) = elim (Bool-cases (c == target)) [
  | inl e ↦ rw e (omega arith)
  | inr e ↦ rw e (omega arith)
]

length-simple_loop : (n : ℕ) (s : Text) → length (simple_loop n s).1.it ≤ length s
unfolding simple_loop
length-simple_loop n [] = omega arith
length-simple_loop n (c ∷ []) = ground arith
length-simple_loop n (c ∷ c2 ∷ cs) =
    let next = length-simple_loop (n + width c) (c2 ∷ cs) in
    let escaped = length-simple_loop (n + width c + width c2) cs in ground arith

cons_value-eq-ok :
    (c : ℕ) (r : Result Error (Text × Parser)) (v : Text) (p : Parser)
    → cons_value c r ≡ ok (v, p)
    → (w : Text) × (r ≡ ok (w, p))
cons_value-eq-ok c (err e) v p h = absurd (ground arith)
cons_value-eq-ok c (ok (s, q)) v p h = (s, cc)

pub quoted_from_escape :
    (n c c2 : ℕ) (cs : Text)
    → c == b'\'' ≡ false
    → c == b'\\' ≡ true
    → quoted_from n (c ∷ c2 ∷ cs) ≡ cons_value c2 (quoted_from (n + width c + width c2) cs)
unfolding quoted_from
quoted_from_escape n c c2 cs other slash = ground arith

pub quoted_from_plain :
    (n c c2 : ℕ) (cs : Text)
    → c == b'\'' ≡ false
    → c == b'\\' ≡ false
    → quoted_from n (c ∷ c2 ∷ cs) ≡ cons_value c (quoted_from (n + width c) (c2 ∷ cs))
unfolding quoted_from
quoted_from_plain n c c2 cs other plain = ground arith

quoted_from-length :
    (n : ℕ) (s v : Text) (p : Parser) → quoted_from n s ≡ ok (v, p) → length p.it ≤ length s
unfolding quoted_from
quoted_from-length n [] v p e = absurd (ground arith)
quoted_from-length n (c ∷ []) v p e = ground arith
quoted_from-length n (c ∷ c2 ∷ cs) v p e = elim (Bool-cases (c == b'\'')) [
  | inl quote ↦ ground arith
  | inr other ↦ elim (Bool-cases (c == b'\\')) [
    | inl slash ↦
        let (w, h) =
          cons_value-eq-ok c2 (quoted_from (n + width c + width c2) cs) v p
            (sym (quoted_from_escape n c c2 cs other slash) ∙ e) in
        let l = quoted_from-length (n + width c + width c2) cs w p h in omega (arith, l)
    | inr plain ↦
        let (w, h) =
          cons_value-eq-ok c (quoted_from (n + width c) (c2 ∷ cs)) v p
            (sym (quoted_from_plain n c c2 cs other plain) ∙ e) in
        let l = quoted_from-length (n + width c) (c2 ∷ cs) w p h in omega (arith, l)
  ]
]

or_eof-eq-ok : (r : Text × Parser) (v : Text) (p : Parser) → or_eof r ≡ ok (v, p) → r.1 ≡ p
or_eof-eq-ok ([], q) v p e = absurd (ground arith)
or_eof-eq-ok (c ∷ s, q) v p e = ground arith

simple_value-length :
    (q : Parser) (v : Text) (p : Parser) → simple_value q ≡ ok (v, p) → length p.it ≤ length q.it
simple_value-length q v p e =
    rw (← or_eof-eq-ok (simple_loop q.position q.it) v p e) (length-simple_loop q.position q.it)

value_of-length :
    (b : Bool) (q : Parser) (v : Text) (p : Parser)
    → value_of (b, q) ≡ ok (v, p)
    → length p.it ≤ length q.it
unfolding value_of
value_of-length true q v p e =
    let ((w, p1), read, more) = bind-eq-ok (quoted_value q) _ e in
    let (p2, eaten, last) = bind-eq-ok (eat b'\'' p1) _ more in
    let l = quoted_from-length q.position q.it w p1 read in
    let l2 = eat_from-length b'\'' p1.position p1.it p2 eaten in
    let same : p2 ≡ p = ground arith in rw (← same) (omega (arith, l, l2))
value_of-length false q v p e = simple_value-length q v p e

parameter_of-length :
    (key : Option Text) (q p : Parser) (kv : Text × Text)
    → parameter_of (key, q) ≡ ok (some kv, p)
    → length p.it < length q.it
unfolding parameter_of
parameter_of-length none q p kv e = absurd (ground arith)
parameter_of-length (some k) q p kv e =
    let (p1, eaten, more) = bind-eq-ok (eat b'=' (skip_ws q)) _ e in
    let ((v, p2), read, last) = bind-eq-ok (value (skip_ws p1)) _ more in
    let skipped = length-take_from is_whitespace q.position q.it in
    let l = eat_from-length b'=' (skip_ws q).position (skip_ws q).it p1 eaten in
    let skipped2 = length-take_from is_whitespace p1.position p1.it in
    let unquoted = length-eat_if_from b'\'' (skip_ws p1).position (skip_ws p1).it in
    let (b, q2) = eat_if b'\'' (skip_ws p1) in
    let l2 = value_of-length b q2 v p2 read in
    let same : p2 ≡ p = ground arith in
    rw (← same) (omega (arith, skipped, l, skipped2, unquoted, l2))

nonempty_rest : (t : Text × Parser) → (nonempty t).1 ≡ t.1
nonempty_rest ([], p) = refl
nonempty_rest (c ∷ s, p) = refl

pub parameter-length :
    (q p : Parser) (kv : Text × Text) → parameter q ≡ ok (some kv, p) → length p.it < length q.it
parameter-length q p kv e =
    let skipped = length-take_from is_whitespace q.position q.it in
    let taken = length-take_from is_keyword_char (skip_ws q).position (skip_ws q).it in
    let same = ap (λ r. length r.it) (nonempty_rest (take_while is_keyword_char (skip_ws q))) in
    let l = parameter_of-length (keyword (skip_ws q)).0 (keyword (skip_ws q)).1 p kv e in
    omega (arith, skipped, taken, same, l)
